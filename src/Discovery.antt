-- ===== src/Discovery.antt =====
-- `discover` and `_manifest_object` of core/authority.py
-- (components/replication-worker/packages/replication).
pub mod Found
pub mod Complete
use edge_evidence_showcase.Prelude.{
  Option, List, [], ◌∷◌, ◌++◌, ℕ, Text, String, text, text_eq, text_compare, keep, if◌then◌else◌,
}
use edge_evidence_showcase.Prelude.Sorting.{sorted, sorted_set}
use edge_evidence_showcase.Exec.{
  Result, ok, err, Exec, pure, lift, catch, finally, ◌>>=◌, ◌>>◌, and_then, collect,
}
use edge_evidence_showcase.Contracts.{Exn, failure, canonical_file_uri}
use edge_evidence_showcase.Contracts.Objects.{ReplicaObject, replica_object, object_compare}
use edge_evidence_showcase.Database.{ArtifactRow, AssertionRow, RecordingRow}
use edge_evidence_showcase.Database.Session.{World, query, begin, rollback, abort}
use edge_evidence_showcase.Spool.{Node, local_size_and_hash}
use edge_evidence_showcase.Authority.{connect, require_current}

-- What discover reads of one row. `root` is the spool root.
module _ (sha256 : List ℕ → Text) (root : Option Node) (target_id : Text) where
  -- _manifest_object
  unfoldable pub manifest_object : String → Text → Text → Result Exn ReplicaObject
  manifest_object object_kind uri expected_sha256 = and_then (canonical_file_uri uri) λ _.
      and_then (local_size_and_hash sha256 root uri) λ read.
        if text_eq read.1 expected_sha256
        then replica_object target_id (text object_kind) uri read.0 expected_sha256
        else err (failure "local_source_corrupt" 6)

  unfoldable pub artifact_objects : ArtifactRow → Result Exn (List ReplicaObject)
  unfolding manifest_object
  artifact_objects a =
      and_then
        (replica_object target_id (text "artifact_content") a.storage_uri a.byte_size
          a.digest_value)
        λ content.
          and_then (manifest_object "artifact_manifest" a.manifest_uri a.manifest_sha256)
            λ manifest. ok (content ∷ manifest ∷ [])

  unfoldable pub assertion_objects : AssertionRow → Result Exn (List ReplicaObject)
  unfolding manifest_object
  assertion_objects a =
      and_then (manifest_object "occurrence_assertion" a.manifest_uri a.manifest_sha256)
        λ o. ok (o ∷ [])

  unfoldable pub recording_objects : RecordingRow → Result Exn (List ReplicaObject)
  recording_objects r =
      and_then
        (replica_object target_id (text "recording_original") r.storage_uri r.byte_size
          r.digest_value)
        λ o. ok (o ∷ [])

  -- The reads of one coherent snapshot.
  unfoldable pub discover_reads : {T : Type 0} → Exec (World T) Exn (List ReplicaObject)
  unfolding artifact_objects assertion_objects recording_objects
  discover_reads = do
    artifacts ← query (λ db. sorted (λ a b. text_compare a.artifact_id b.artifact_id) db.artifacts)
    contents ← lift (collect artifact_objects artifacts)
    assertions ← query (λ db.
        sorted (λ a b. text_compare a.occurrence_id b.occurrence_id)
          db.capture_occurrence_assertions)
    occurrences ← lift (collect assertion_objects assertions)
    recordings ← query (λ db.
        sorted (λ a b. text_compare a.recording_id b.recording_id)
          (keep (λ r. text_eq r.state (text "COMPLETE")) db.recording_imports))
    originals ← lift (collect recording_objects recordings)
    pure (contents ++ occurrences ++ originals)

  -- discover, on a connection of its own that is closed at the end
  unfoldable pub discover : {T : Type 0} → Exec (World T) Exn (List ReplicaObject)
  unfolding connect require_current discover_reads
  discover = do
    connect
    objects ← finally (catch (require_current >> begin >> discover_reads) abort) rollback
    pure (sorted_set object_compare objects)
