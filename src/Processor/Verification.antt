-- ===== src/Processor/Verification.antt =====
-- components/processor-worker/apps/edge_agent/verification.py: paths below a spool, digests of files
-- and the proof of a raw recording.
use edge_evidence_showcase.Prelude.{
  ℕ, Bool, true, false, not, ◌&&◌, Option, none, some, List, [], ◌∷◌, ◌++◌, Text, text, text_eq,
  length, any, ltb, ◌==◌,
}
use edge_evidence_showcase.Exec.{Result, ok, err, pure, and_then, ◌>>=◌, ◌>>◌}
use edge_evidence_showcase.Processor.Json.{Json, Fields, find_field, serialize}
use edge_evidence_showcase.Processor.Runtime.{
  Error, failure, Profile, Probe, no_tool, no_profile, profiled, Runtime, require,
}
use edge_evidence_showcase.Processor.Instants.{
  id_prefix, expected_duration, duration_tolerance, distance, validate_instant, canonical_instant,
  interval_is_locked_ten_seconds,
}
use edge_evidence_showcase.Processor.Manifest.{
  storage_uri, text_with, is_integer, is_text, members, validate_manifest_shape,
}
use edge_evidence_showcase.Processor.Machine.{
  Files, Call, attempt, ensure, check, item_at, is_link, parents, read_bytes, probe, on_os_error,
}

-- A symbolic link among these names.
unfoldable pub crosses_link : List Text → Files → Bool
unfolding item_at is_link
crosses_link paths fs = any (λ p. is_link (item_at p fs)) paths

-- Without a link on the way, the resolved path is below the root: the last test has nothing to
-- refuse.
unfoldable pub require_within_spool : Text → Call Unit
require_within_spool path = do
  on_os_error 5 probe
  check (λ m. not (crosses_link (parents path ++ path ∷ []) m.files)) (failure 4)

-- The text of a member that is known to be one.
unfoldable pub text_of : Option Json → Text
text_of (some (Json.string t)) = t
text_of _ = []

-- not abs(observed_ms - target_ms) > DURATION_TOLERANCE_MS
unfoldable pub is_locked_duration : ℕ → Bool
unfolding distance
is_locked_duration observed = not (ltb duration_tolerance (distance observed expected_duration))

-- The problems of ffprobe_duration_seconds
unfoldable pub profile_fits : Profile → Bool
unfolding is_locked_duration
profile_fits p =
    text_eq p.codec (text "h264")
    && p.width == 1280
    && p.height == 720
    && text_eq p.frame_rate (text "15/1")
    && p.frames == 150
    && is_locked_duration p.duration

-- require_tool("ffprobe") and ffprobe_duration_seconds
unfoldable pub require_profile : Probe → Result Error Unit
unfolding profile_fits
require_profile no_tool = err (failure 3)
require_profile no_profile = err (failure 6)
require_profile (profiled p) = require (profile_fits p) 6

module _ (runtime : Runtime) where
  -- The digest and the size of a file.
  unfoldable pub hash_file : Text → Call (Text × ℕ)
  hash_file path = do
    bytes ← on_os_error 6 (read_bytes path)
    pure (runtime.sha256 bytes, length bytes)

  -- The tests of verify_media_and_manifest on the members, the digest and the size, in their order.
  unfoldable pub media_agrees : Text → Fields → Text → ℕ → Bool
  unfolding text_with is_integer is_text members storage_uri
  media_agrees sha256_hex manifest media_hash media_size =
      text_eq media_hash sha256_hex
      && is_text (id_prefix ++ sha256_hex) (find_field (text "artifact_id") manifest)
      && (elim (members (find_field (text "digest") manifest)) [
        | none ↦ false
        | some fs ↦ is_text media_hash (find_field (text "value") fs)
      ])
      && is_integer media_size (find_field (text "byte_size") manifest)
      && is_text (storage_uri sha256_hex) (find_field (text "storage_uri") manifest)
      && is_text (text "raw_media") (find_field (text "artifact_kind") manifest)
      && is_text (text "video/mp4") (find_field (text "media_type") manifest)
      && not (has_member (find_field (text "parent_artifact_id") manifest))
    where
      has_member : Option Json → Bool
      has_member none = false
      has_member (some _) = true

  -- The tests on the time stamp of the manifest.
  unfoldable pub instant_agrees : Text → Text → Result Error Unit
  unfolding canonical_instant interval_is_locked_ten_seconds validate_instant
  instant_agrees capture_started_at finalized_at =
      and_then (validate_instant runtime (Json.string finalized_at)) λ finalized.
        and_then (require (text_eq (canonical_instant runtime finalized) finalized_at) 6) λ _.
          and_then (interval_is_locked_ten_seconds runtime capture_started_at finalized_at)
            λ locked. require locked 6

  -- json.loads of decoded bytes, with the tests on the document.
  unfoldable pub read_manifest : List ℕ → Result Error Fields
  unfolding validate_manifest_shape members serialize
  read_manifest bytes = elim (runtime.loads bytes) [
    | none ↦ err (failure 6)
    | some manifest ↦ and_then (validate_manifest_shape runtime manifest) λ _.
        and_then (require (text_eq bytes (serialize manifest)) 6)
          λ _. elim (members (some manifest)) [ none ↦ err (failure 6) | some fs ↦ ok fs ]
  ]

  -- The members of the manifest, and the digests and the size that it returns.
  unfoldable pub verify_media_and_manifest :
      Text → Text → List ℕ → Text → Call (Fields × Text × ℕ × Text)
  verify_media_and_manifest sha256_hex media_path manifest_bytes capture_started_at = do
    manifest ← attempt (read_manifest manifest_bytes)
    (media_hash, media_size) ← hash_file media_path
    ensure (media_agrees sha256_hex manifest media_hash media_size) (failure 6)
    attempt
        (instant_agrees capture_started_at (text_of (find_field (text "finalized_at") manifest)))
    media ← on_os_error 6 (read_bytes media_path)
    attempt (require_profile (runtime.ffprobe media))
    pure (manifest, media_hash, media_size, runtime.sha256 manifest_bytes)
