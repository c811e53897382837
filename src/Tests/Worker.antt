-- ===== src/Tests/Worker.antt =====
-- The worker on the sample world.
use edge_evidence_showcase.Prelude.{length, List, [], refl, ◌≡◌, none, inl}
use edge_evidence_showcase.Exec.Triple.{Post}
use edge_evidence_showcase.Worker.Running.{run}
use edge_evidence_showcase.Worker.Reconciling.{reconcile, verify}
use edge_evidence_showcase.Database.Session.{World}
use edge_evidence_showcase.Worker.Binding.{init_target}
use edge_evidence_showcase.Worker.Initializing.{MayAdd}
use edge_evidence_showcase.Worker.Initializing.Rows.{Registered, init_target-Registered}
use edge_evidence_showcase.Contracts.Objects.{ReplicaObject}
use edge_evidence_showcase.Worker.Safety.{Held}
use edge_evidence_showcase.Worker.Verifying.{verify-Held}
use edge_evidence_showcase.Worker.Safety.Publishing.{
  LeavesSafe, run-LeavesSafe, reconcile-LeavesSafe,
}
use edge_evidence_showcase.Worker.Completion.Replicated.{Done}
use edge_evidence_showcase.Worker.Completion.Replicated.Whole.{run-Done}
use edge_evidence_showcase.Tests.Memory.{memory, Stored, memory_laws}
use edge_evidence_showcase.Tests.Samples.{camera, sample_hash, spool, tables, world}

run-LeavesSafe_example :
    LeavesSafe Stored camera world (run memory sample_hash spool camera world).1
run-LeavesSafe_example =
    run-LeavesSafe memory Stored memory_laws camera world sample_hash spool refl
      (λ _ _. inl refl, (λ _ p. cc, tt))

reconcile-LeavesSafe_example : LeavesSafe Stored camera world (reconcile memory camera world).1
reconcile-LeavesSafe_example =
    reconcile-LeavesSafe memory Stored memory_laws camera world refl
      (λ _ _. inl refl, (λ _ p. cc, tt))

run-Done_example :
    Post
      (λ summary v.
        (objects : List ReplicaObject) × (summary.discovered ≡ length objects)
        × Done camera sample_hash spool world.committed objects v)
      (λ _ _. Unit)
      (run memory sample_hash spool camera world)
run-Done_example = run-Done memory camera sample_hash spool world refl

abbrev fresh_world : World (List ReplicaObject)
fresh_world = record world {
  committed = record tables { replica_targets = []; replica_objects = [] };
}

init_target-Registered_example :
    Post
      (λ _ v. (v.working ≡ none) × Registered memory camera fresh_world.committed v.committed)
      (λ _ v.
        (v.working ≡ none) × MayAdd camera memory.adapter_kind fresh_world.committed v.committed)
      (init_target memory camera fresh_world)
init_target-Registered_example = init_target-Registered memory camera fresh_world refl

verify-Held_example :
    Post
      (λ _ v. (v.working ≡ none) × Held Stored camera v.committed v.target)
      (λ _ _. Unit)
      (verify memory camera world)
verify-Held_example = verify-Held memory Stored memory_laws camera world refl
