-- ===== src/Processor/Evidence.antt =====
-- The evidence gate of components/processor-worker/apps/edge_agent/process.py: a raw recording has
-- to agree between its files, its row and its manifest.
use edge_evidence_showcase.Prelude.{
  ℕ, Bool, not, ◌&&◌, Option, none, some, List, ◌++◌, Text, text, text_eq, drop, ◌==◌,
}
use edge_evidence_showcase.Exec.{Result, ok, err, pure, raise, catch, and_then, ◌>>=◌, ◌>>◌}
use edge_evidence_showcase.Processor.Json.{Fields, find_field}
use edge_evidence_showcase.Processor.Runtime.{Error, failure, Runtime}
use edge_evidence_showcase.Processor.Instants.{
  validate_instant, ten_seconds_before, canonical_instant,
}
use edge_evidence_showcase.Processor.Manifest.{
  media_relative_path, manifest_relative_path, storage_uri, is_integer, is_text, members,
}
use edge_evidence_showcase.Processor.Ledger.{ArtifactFacts, find_artifact}
use edge_evidence_showcase.Processor.Machine.{
  Call, look, attempt, ensure, query, is_link, is_file, read_bytes, on_os_error,
}
use edge_evidence_showcase.Processor.Verification.{
  require_within_spool, text_of, verify_media_and_manifest,
}
use edge_evidence_showcase.Processor.Plan.{ProcessRequest, InputEvidence}

unfoldable pub row_found : Option ArtifactFacts → Call ArtifactFacts
row_found none = raise (failure 6)
row_found (some facts) = pure facts

-- _read_input_row
unfoldable pub read_input_row : Text → Call ArtifactFacts
read_input_row artifact_id = query (λ db. find_artifact artifact_id db.artifacts) >>= row_found

-- The tests of a row against the identity that names it.
unfoldable pub row_agrees : Text → ArtifactFacts → Bool
row_agrees sha256_hex row =
    text_eq row.artifact_kind (text "raw_media")
    && text_eq row.media_type (text "video/mp4")
    && text_eq row.digest_algorithm (text "sha256")
    && text_eq row.digest_value sha256_hex

unfoldable pub uris_agree : Text → ArtifactFacts → Bool
unfolding storage_uri manifest_relative_path
uris_agree sha256_hex row =
    text_eq row.storage_uri (storage_uri sha256_hex)
    && text_eq row.manifest_uri (text "file:" ++ manifest_relative_path sha256_hex)

-- except FinalizeError: raise ProcessError(code=6)
unfoldable pub as_evidence : {A : Type 0} → Error → Call A
as_evidence (failure code) = raise (failure 6)
as_evidence x = raise x

unfoldable pub require_regular : Text → Call Unit
require_regular path = do
  i ← look path
  ensure (not (is_link i)) (failure 6)
  ensure (is_file i) (failure 6)

-- What the ledger says against what the manifest and the file say.
unfoldable pub facts_agree : ArtifactFacts → Fields → ℕ → Text → Bool
unfolding is_integer is_text
facts_agree row manifest media_size manifest_sha =
    text_eq manifest_sha row.manifest_sha256
    && is_integer media_size (find_field (text "byte_size") manifest)
    && row.byte_size == media_size
    && is_text row.source_id (find_field (text "source_id") manifest)
    && is_text row.finalized_at (find_field (text "finalized_at") manifest)

module _ (runtime : Runtime) where
  -- candidate["finalized_at"], ten seconds before it, as a canonical time stamp
  unfoldable pub capture_start : List ℕ → Result Error Text
  unfolding members validate_instant ten_seconds_before canonical_instant
  capture_start manifest_bytes = elim (runtime.loads manifest_bytes) [
    | none ↦ err (failure 6)
    | some candidate ↦ elim (members (some candidate)) [
      | none ↦ err (failure 6)
      | some fs ↦ elim (find_field (text "finalized_at") fs) [
        | none ↦ err (failure 6)
        | some value ↦ and_then (validate_instant runtime value) λ end.
            and_then (ten_seconds_before runtime end) λ start. ok (canonical_instant runtime start)
      ]
    ]
  ]

  unfoldable pub evidence_gate : ProcessRequest → Call InputEvidence
  evidence_gate request = do
    let sha256_hex = drop 7 request.input_artifact_id
    row ← read_input_row request.input_artifact_id
    ensure (row_agrees sha256_hex row) (failure 6)
    let final_media = media_relative_path sha256_hex
    let final_manifest = manifest_relative_path sha256_hex
    catch (require_within_spool final_media >> require_within_spool final_manifest) as_evidence
    require_regular final_media
    require_regular final_manifest
    ensure (uris_agree sha256_hex row) (failure 6)
    manifest_bytes ← on_os_error 6 (read_bytes final_manifest)
    capture_started_at ← attempt (capture_start manifest_bytes)
    (manifest, media_hash, media_size, manifest_sha) ←
        verify_media_and_manifest runtime sha256_hex final_media manifest_bytes capture_started_at
    ensure (facts_agree row manifest media_size manifest_sha) (failure 6)
    pure (record {
      artifact_id = request.input_artifact_id;
      digest_hex = sha256_hex;
      source_id = row.source_id;
      media_type = text "video/mp4";
      byte_size = media_size;
      manifest_sha256 = row.manifest_sha256;
      finalized_at = text_of (find_field (text "finalized_at") manifest);
    })
