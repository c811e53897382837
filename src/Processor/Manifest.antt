-- ===== src/Processor/Manifest.antt =====
-- components/processor-worker/apps/edge_agent/finalize.py: the paths of a spool and the manifests
-- artifact-manifest.v1. A path is the text of a path below the spool root.
use edge_evidence_showcase.Prelude.{
  ℕ, Bool, true, false, not, ◌&&◌, Option, none, some, List, [], ◌∷◌, ◌++◌, Text, text, text_eq,
  length, take, leb, ◌==◌, if◌then◌else◌,
}
use edge_evidence_showcase.Exec.{Result, ok, err, and_then}
use edge_evidence_showcase.Contracts.{slash}
use edge_evidence_showcase.Processor.Identity.{matches_pattern}
use edge_evidence_showcase.Processor.Json.{
  Json, integer, string, object, Fields, no_fields, field, find_field, no_unknown, has_fields,
  has_exactly, has_text,
}
use edge_evidence_showcase.Processor.Runtime.{Error, failure, Runtime, require}
use edge_evidence_showcase.Processor.Instants.{
  id_prefix, matches_artifact_id, matches_source_id, validate_instant,
}

-- _shard
unfoldable pub shard : Text → Text
shard sha256_hex = take 2 sha256_hex

unfoldable pub media_relative_path : Text → Text
unfolding shard
media_relative_path sha256_hex =
    text "complete/sha256/" ++ (shard sha256_hex ++ slash ∷ (sha256_hex ++ text ".mp4"))

unfoldable pub manifest_relative_path : Text → Text
unfolding shard
manifest_relative_path sha256_hex =
    text "manifests/sha256/" ++ (shard sha256_hex ++ slash ∷ (sha256_hex ++ text ".json"))

unfoldable pub storage_uri : Text → Text
unfolding media_relative_path
storage_uri sha256_hex = text "file:" ++ media_relative_path sha256_hex

-- isinstance(value, str) and test(value)
unfoldable pub text_with : (Text → Bool) → Option Json → Bool
text_with test (some (string t)) = test t
text_with test _ = false

-- type(value) is int and value == n
unfoldable pub is_integer : ℕ → Option Json → Bool
is_integer n (some (integer m)) = m == n
is_integer n _ = false

-- type(value) is int and value >= 0
unfoldable pub is_natural : Option Json → Bool
is_natural (some (integer m)) = true
is_natural _ = false

-- value == t, for a text t
unfoldable pub is_text : Text → Option Json → Bool
unfolding text_with
is_text t = text_with (λ u. text_eq u t)

-- The members of an object, none where the value is no object.
unfoldable pub members : Option Json → Option Fields
members (some (object fs)) = some fs
members _ = none

abbrev pub manifest_required : List Text
manifest_required =
    text "schema_version"
    ∷ text "artifact_id"
    ∷ text "source_id"
    ∷ text "artifact_kind"
    ∷ text "media_type"
    ∷ text "byte_size"
    ∷ text "digest"
    ∷ text "storage_uri"
    ∷ text "finalized_at"
    ∷ []

abbrev pub manifest_allowed : List Text
manifest_allowed = text "parent_artifact_id" ∷ manifest_required

abbrev pub artifact_kinds : List Text
artifact_kinds = text "raw_media" ∷ text "derived_media" ∷ text "metadata" ∷ []

-- set(digest) == {"algorithm", "value"}, with a sha256 of 64 hex characters
unfoldable pub is_digest : Option Json → Bool
unfolding has_exactly is_text text_with members matches_pattern
is_digest value = elim (members value) [
  | none ↦ false
  | some fs ↦
      has_exactly (text "algorithm" ∷ text "value" ∷ []) fs
      && is_text (text "sha256") (find_field (text "algorithm") fs)
      && text_with matches_pattern (find_field (text "value") fs)
]

-- if "parent_artifact_id" in manifest: …
unfoldable pub is_parent : Option Json → Bool
unfolding text_with matches_artifact_id
is_parent none = true
is_parent (some value) = text_with matches_artifact_id (some value)

-- The mapping of build_manifest, which a parent extends.
unfoldable pub manifest_fields : Text → Text → Text → Text → ℕ → Text → Text → Fields → Fields
manifest_fields source_id sha256_hex kind media_type byte_size uri finalized_at more =
    field (text "schema_version") (integer 1) (
      field (text "artifact_id") (string (id_prefix ++ sha256_hex)) (
        field (text "source_id") (string source_id) (
          field (text "artifact_kind") (string kind) (
            field (text "media_type") (string media_type) (
              field (text "byte_size") (integer byte_size) (
                field (text "digest")
                  (object (
                    field (text "algorithm") (string (text "sha256"))
                      (field (text "value") (string sha256_hex) no_fields)))
                  (field (text "storage_uri") (string uri)
                    (field (text "finalized_at") (string finalized_at) more))))))))

module _ (runtime : Runtime) where
  unfoldable pub is_instant : Option Json → Bool
  unfolding validate_instant
  is_instant none = false
  is_instant (some value) = elim (validate_instant runtime value) [ ok _ ↦ true | err _ ↦ false ]

  -- The tests of validate_manifest_shape on the members of an object, in their order.
  unfoldable pub has_manifest_shape : Fields → Bool
  unfolding no_unknown has_fields is_integer text_with is_natural is_digest is_instant is_parent
      has_text
  has_manifest_shape fs =
      no_unknown manifest_allowed fs
      && has_fields manifest_required fs
      && is_integer 1 (find_field (text "schema_version") fs)
      && text_with matches_artifact_id (find_field (text "artifact_id") fs)
      && text_with matches_source_id (find_field (text "source_id") fs)
      && text_with (λ t. has_text t artifact_kinds) (find_field (text "artifact_kind") fs)
      && text_with (λ t. leb 1 (length t) && leb (length t) 255) (find_field (text "media_type") fs)
      && is_natural (find_field (text "byte_size") fs)
      && is_digest (find_field (text "digest") fs)
      && text_with (λ t. leb 1 (length t)) (find_field (text "storage_uri") fs)
      && is_instant (find_field (text "finalized_at") fs)
      && is_parent (find_field (text "parent_artifact_id") fs)

  -- Every refusal has the exit code 6.
  unfoldable pub validate_manifest_shape : Json → Result Error Unit
  unfolding has_manifest_shape
  validate_manifest_shape (object fs) = require (has_manifest_shape fs) 6
  validate_manifest_shape _ = err (failure 6)

  unfoldable pub build_manifest : Text → Text → ℕ → Text → Result Error Json
  unfolding manifest_fields validate_manifest_shape storage_uri matches_pattern
  build_manifest source_id sha256_hex byte_size finalized_at =
      if not (matches_pattern sha256_hex)
      then err (failure 6)
      else let manifest = object (
          manifest_fields source_id sha256_hex (text "raw_media") (text "video/mp4") byte_size
            (storage_uri sha256_hex) finalized_at no_fields) in
        and_then (validate_manifest_shape manifest) (λ _. ok manifest)
