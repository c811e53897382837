-- ===== src/Worker/Safety/Publishing.antt =====
-- The invariant of Worker/Safety.antt under `run` and `verify` (core/worker.py).
use edge_evidence_showcase.Prelude.{
  ℕ, ◌≡◌, not, ◌||◌, ◌==◌, text_eq, Option, none, List, [], ◌∷◌, Text,
}
use edge_evidence_showcase.Exec.{raise, Exec, catch, lift}
use edge_evidence_showcase.Exec.Triple.{
  Triple, Keeps-pure, Keeps-lift, Keeps-finally, Keeps-bind, Keeps-at, Triple-if, Triple-raise,
  Triple-bind, Triple-catch, Triple-weaken,
}
use edge_evidence_showcase.Contracts.{failure, Exn, replication, sqlite_error, foreign}
use edge_evidence_showcase.Contracts.Objects.{ReplicaObject}
use edge_evidence_showcase.Database.{Tables}
use edge_evidence_showcase.Database.Session.{World, rollback}
use edge_evidence_showcase.Authority.{record_failure, mark_verified}
use edge_evidence_showcase.Spool.{Node, local_size_and_hash}
use edge_evidence_showcase.Target.{PublishResult, TargetApi, TargetLaws}
use edge_evidence_showcase.Worker.Binding.{on_target}
use edge_evidence_showcase.Worker.Reconciling.{reconcile}
use edge_evidence_showcase.Database.Schema.Evolution.{Evolves, Evolves-refl}
use edge_evidence_showcase.Worker.Safety.{Held}
use edge_evidence_showcase.Worker.Running.{
  publish_read, publish_checked, failed, publish_one, publish_loop, run,
}
use edge_evidence_showcase.Worker.Safety.Calls.{
  Safe, connect-Safe, discover-Safe, register_discovered-Safe, record_attempt-Safe,
  record_failure-Safe, mark_verified-Safe, on_target-Safe,
}
use edge_evidence_showcase.Worker.Safety.Runs.{
  KeepsSafe, rollback-Safe, load_target-Safe, bind-Safe, validate-Safe, pending_objects-Safe,
  reconcile-Keeps,
}

module _ {T B : Type 0} (api : TargetApi T B) (Holds : T → ReplicaObject → Type 0)
    (laws : TargetLaws api Holds) (target_id : Text) (first : Tables) where
  open laws use {publish_preserves, verify_preserves, publish_holds}

  module _ (sha256 : List ℕ → Text) (root : Option Node) where
    -- What is published is held.
    publish_read-Safe :
        (b : B) (obj : ReplicaObject) (source : ℕ × Text)
        → Triple
            (Safe Holds target_id first)
            (publish_read api sha256 root b obj source)
            (λ _ w. Safe Holds target_id first w × Holds w.target obj)
            (λ _. Safe Holds target_id first)
    unfolding publish_read
    publish_read-Safe b obj (size, digest) =
        Triple-if (not (size == obj.expected_byte_size) || not (text_eq digest obj.expected_sha256))
          (raise (failure "local_source_corrupt" 6)) (on_target (api.publish_immutable b root obj))
          (λ _. Triple-raise _ (λ s p. p))
          (λ _.
            Triple-weaken _ _ _ _
              (on_target-Safe Holds target_id first (api.publish_immutable b root obj) (λ _. Unit)
                (λ _ t. Holds t obj) (publish_preserves b root obj) (publish_holds b root obj))
              (λ s p. (p, tt)) (λ a s p. p) (λ x s p. p))

    publish_checked-Safe :
        (b : B) (obj : ReplicaObject)
        → Triple
            (Safe Holds target_id first)
            (publish_checked api sha256 root b obj)
            (λ _ w. Safe Holds target_id first w × Holds w.target obj)
            (λ _. Safe Holds target_id first)
    unfolding publish_checked
    publish_checked-Safe b obj =
        Triple-bind (lift (local_size_and_hash sha256 root obj.relative_uri))
          (publish_read api sha256 root b obj) (λ _. Safe Holds target_id first)
          (Keeps-lift (local_size_and_hash sha256 root obj.relative_uri)) (publish_read-Safe b obj)

    failed-Safe :
        (obj : ReplicaObject) (Q : PublishResult → World T → Type 0) (x : Exn)
        → Triple
            (Safe Holds target_id first)
            (failed api sha256 root obj x)
            Q
            (λ _. Safe Holds target_id first)
    unfolding failed
    failed-Safe obj Q (replication e) =
        Triple-bind (record_failure obj e.finding) _ (λ _. Safe Holds target_id first)
          (record_failure-Safe Holds target_id first obj e.finding) (λ _. Triple-raise _ (λ s p. p))
    failed-Safe obj Q sqlite_error = Triple-raise _ (λ s p. p)
    failed-Safe obj Q (foreign n) = Triple-raise _ (λ s p. p)

    publish_one-Safe :
        (b : B) (obj : ReplicaObject) (counts : ℕ × ℕ)
        → KeepsSafe api Holds laws target_id first (publish_one api sha256 root b obj counts)
    unfolding publish_one
    publish_one-Safe b obj counts =
        Keeps-bind _ _ (validate-Safe api Holds laws target_id first b) (λ _.
          Keeps-bind _ _ (record_attempt-Safe Holds target_id first obj) (λ _.
            Triple-bind (catch (publish_checked api sha256 root b obj) (failed api sha256 root obj))
              _ (λ _ w. Safe Holds target_id first w × Holds w.target obj)
              (Triple-catch _ _ (λ _. Safe Holds target_id first) (publish_checked-Safe b obj)
                (failed-Safe obj _))
              (λ result.
                Triple-bind (mark_verified obj) _ (λ _. Safe Holds target_id first)
                  (mark_verified-Safe Holds target_id first obj) (λ _. Keeps-pure _))))

    pub publish_loop-Safe :
        (b : B) (objects : List ReplicaObject) (counts : ℕ × ℕ)
        → KeepsSafe api Holds laws target_id first (publish_loop api sha256 root b objects counts)
    unfolding publish_loop
    publish_loop-Safe b [] counts = Keeps-pure counts
    publish_loop-Safe b (obj ∷ objects) counts =
        Keeps-bind _ _ (publish_one-Safe b obj counts)
          (λ counts'. publish_loop-Safe b objects counts')

    pub run-Keeps : (id : Text) → KeepsSafe api Holds laws target_id first (run api sha256 root id)
    unfolding run
    run-Keeps id = Keeps-bind _ _ (Keeps-lift _) (λ _.
        Keeps-bind _ _ (reconcile-Keeps api Holds laws target_id first id) (λ reconciled.
          Keeps-bind _ _ (connect-Safe Holds target_id first) (λ _.
            Keeps-finally _ rollback (rollback-Safe api Holds laws target_id first) (
              Keeps-bind _ _ (load_target-Safe api Holds laws target_id first id) (λ marker.
                Keeps-bind _ _ (bind-Safe api Holds laws target_id first id marker) (λ b.
                  Keeps-bind _ _ (discover-Safe Holds target_id first sha256 root id) (λ objects.
                    Keeps-bind _ _ (register_discovered-Safe Holds target_id first id objects)
                      (λ inserted.
                        Keeps-bind _ _ (pending_objects-Safe api Holds laws target_id first id)
                          (λ waiting.
                            Keeps-bind _ _ (publish_loop-Safe b waiting (0, 0))
                              (λ counts. Keeps-pure _))))))))))

-- What a call of the worker leaves behind, whether it returns or raises: no open transaction, the
-- rows evolved, and each VERIFIED row of the target held by it.
abbrev pub LeavesSafe :
    {T : Type 0} → (T → ReplicaObject → Type 0) → Text → World T → World T → Type 0
LeavesSafe Holds target_id w v =
    (v.working ≡ none) × Evolves w.committed v.committed × Held Holds target_id v.committed v.target

module _ {T B : Type 0} (api : TargetApi T B) (Holds : T → ReplicaObject → Type 0)
    (laws : TargetLaws api Holds) (target_id : Text) (w : World T) where
  leaves :
      {A : Type 0} (m : Exec (World T) Exn A)
      → KeepsSafe api Holds laws target_id w.committed m
      → w.working ≡ none
      → Held Holds target_id w.committed w.target
      → LeavesSafe Holds target_id w (m w).1
  leaves m k n h =
      let (n', (e, h')) = Keeps-at k w (n, (Evolves-refl w.committed, h)) in (n', e, h')

  -- For a target that keeps the promises of its interface: if no transaction is open and every
  -- VERIFIED row of the target is held by it, then after `run`, whether it returned or raised at any
  -- point, that is so again; and every row has kept its identity, lost no attempt, and is unchanged
  -- if it was VERIFIED, and the records of finalized files are the same.
  pub run-LeavesSafe :
      (sha256 : List ℕ → Text) (root : Option Node)
      → w.working ≡ none
      → Held Holds target_id w.committed w.target
      → LeavesSafe Holds target_id w (run api sha256 root target_id w).1
  run-LeavesSafe sha256 root =
      leaves (run api sha256 root target_id)
        (run-Keeps api Holds laws target_id w.committed sha256 root target_id)

  -- For a target that keeps the promises of its interface: if no transaction is open and every
  -- VERIFIED row of the target is held by it, then after `reconcile`, whether it returned or raised at
  -- any point, that is so again; and every row has kept its identity, lost no attempt, and is
  -- unchanged if it was VERIFIED, and the records of finalized files are the same.
  pub reconcile-LeavesSafe :
      w.working ≡ none
      → Held Holds target_id w.committed w.target
      → LeavesSafe Holds target_id w (reconcile api target_id w).1
  reconcile-LeavesSafe =
      leaves (reconcile api target_id)
        (reconcile-Keeps api Holds laws target_id w.committed target_id)
