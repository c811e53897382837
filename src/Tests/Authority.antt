-- ===== src/Tests/Authority.antt =====
-- The authority on the sample world.
use edge_evidence_showcase.Prelude.{◌≡◌, refl, text_eq, none, some, [], ◌∷◌, text, Each}
use edge_evidence_showcase.Exec.Triple.{Post}
use edge_evidence_showcase.Contracts.Objects.{object_eq, is_object_kind}
use edge_evidence_showcase.Contracts.{starts_with, matches_sha256}
use edge_evidence_showcase.Database.{verified}
use edge_evidence_showcase.Database.Schema.{update_replica_rows, uri_check}
use edge_evidence_showcase.Database.Schema.Evolution.{Evolves, update_replica_rows-Evolves}
use edge_evidence_showcase.Database.Statements.{is_pending_row, set_attempt}
use edge_evidence_showcase.Authority.{
  record_attempt, record_failure, mark_verified, register_discovered, objects_for_state,
}
use edge_evidence_showcase.Authority.Lifecycle.{
  MovesOne, Attempted, Failed, Verified, record_attempt-MovesOne, record_failure-MovesOne,
  mark_verified-MovesOne,
}
use edge_evidence_showcase.Authority.Registration.{Covers, Grows, register_discovered-Covers}
use edge_evidence_showcase.Authority.Selection.{Finds, objects_for_state-Finds}
use edge_evidence_showcase.Discovery.{discover}
use edge_evidence_showcase.Discovery.Complete.{IsComplete, discover-IsComplete}
use edge_evidence_showcase.Tests.Samples.{
  sample_hash, spool, camera, kept_row, waiting_row, kept_object, new_object, tables, world,
}

record_attempt-MovesOne_example :
    MovesOne new_object Attempted world (record_attempt new_object world)
record_attempt-MovesOne_example = record_attempt-MovesOne new_object world refl

record_failure-MovesOne_example :
    MovesOne new_object
      (Failed (text "destination_conflict"))
      world
      (record_failure new_object (text "destination_conflict") world)
record_failure-MovesOne_example =
    record_failure-MovesOne new_object world (text "destination_conflict") refl

mark_verified-MovesOne_example : MovesOne new_object Verified world (mark_verified new_object world)
mark_verified-MovesOne_example = mark_verified-MovesOne new_object world refl

register_discovered-Covers_example :
    Post
      (λ n v.
        (v.working ≡ none)
        × (Grows camera (new_object ∷ kept_object ∷ []) world.committed n v.committed
            × Each (Covers camera v.committed) (new_object ∷ kept_object ∷ []))
        × (v.target ≡ world.target))
      (λ _ v. (v.working ≡ none) × (v.committed ≡ world.committed) × (v.target ≡ world.target))
      (register_discovered camera (new_object ∷ kept_object ∷ []) world)
register_discovered-Covers_example =
    register_discovered-Covers camera (new_object ∷ kept_object ∷ []) world refl

objects_for_state-Finds_example :
    Post
      (λ objects v.
        (v.working ≡ none)
        × (v.committed ≡ world.committed)
        × (v.target ≡ world.target)
        × Finds camera verified world.committed objects)
      (λ _ v. (v.working ≡ none) × (v.committed ≡ world.committed) × (v.target ≡ world.target))
      (objects_for_state camera verified world)
objects_for_state-Finds_example = objects_for_state-Finds camera verified world refl

attempted :
    update_replica_rows (is_pending_row new_object) set_attempt tables
    ≡ some (
      record tables {
        replica_objects =
            kept_row ∷ record waiting_row { attempt_count = 2; last_error = none } ∷ [];
      },
      1,
    )
unfolding update_replica_rows is_pending_row set_attempt object_eq text_eq text is_object_kind
    uri_check starts_with matches_sha256
attempted = refl

update_replica_rows-Evolves_example : Evolves tables (record tables {
  replica_objects = kept_row ∷ record waiting_row { attempt_count = 2; last_error = none } ∷ [];
})
update_replica_rows-Evolves_example =
    update_replica_rows-Evolves (is_pending_row new_object) set_attempt tables _ 1 attempted

discover-IsComplete_example :
    Post
      (λ objects v.
        ((v.working ≡ none) × (v.committed ≡ world.committed) × (v.target ≡ world.target))
        × IsComplete sample_hash spool camera world.committed objects)
      (λ _ v. (v.working ≡ none) × (v.committed ≡ world.committed) × (v.target ≡ world.target))
      (discover sample_hash spool camera world)
discover-IsComplete_example = discover-IsComplete sample_hash spool camera world refl
