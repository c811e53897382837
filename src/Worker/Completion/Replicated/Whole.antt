-- ===== src/Worker/Completion/Replicated/Whole.antt =====
-- The whole of `run` (core/worker.py), from discovery to the last VERIFIED row.
use edge_evidence_showcase.Prelude.{ℕ, ◌≡◌, refl, Option, none, List, [], Text, Each, length}
use edge_evidence_showcase.Exec.Triple.{
  Post, Triple, Triple-pure, Triple-bind, Triple-finally, Triple-weaken, Triple-and, Keeps-lift,
}
use edge_evidence_showcase.Contracts.Objects.{ReplicaObject}
use edge_evidence_showcase.Database.{pending, Tables}
use edge_evidence_showcase.Database.Schema.Evolution.{Evolves, Evolves-refl}
use edge_evidence_showcase.Database.Session.{World, rollback}
use edge_evidence_showcase.Spool.{Node}
use edge_evidence_showcase.Authority.{register_discovered, pending_objects, objects_for_state}
use edge_evidence_showcase.Authority.Changes.{Open, Changes-Open, objects_for_state-Reads}
use edge_evidence_showcase.Authority.Registration.{Covers, register_discovered-Changes}
use edge_evidence_showcase.Authority.Selection.{Selected-rows}
use edge_evidence_showcase.Discovery.{discover}
use edge_evidence_showcase.Discovery.Found.{discover-Reads}
use edge_evidence_showcase.Discovery.Complete.{IsComplete, Gathered-IsComplete}
use edge_evidence_showcase.Target.{TargetApi}
use edge_evidence_showcase.Worker.Running.{publish_loop, run}
use edge_evidence_showcase.Worker.Safety.Calls.{Safe, connect-Safe}
use edge_evidence_showcase.Worker.Safety.Runs.{
  asks_nothing, load_target-Safe, bind-Safe, reconcile-Keeps,
}
use edge_evidence_showcase.Worker.Safety.Publishing.{publish_loop-Safe}
use edge_evidence_showcase.Worker.Completion.{Left, Waiting}
use edge_evidence_showcase.Worker.Completion.Loops.{
  publish_loop-Waiting, Idle, idle, Left-AllVerified, Held-nothing,
}
use edge_evidence_showcase.Worker.Completion.Replicated.{
  Each-Covers, SameSources-IsComplete, Each-Replicated, Done,
}

module _ {T B : Type 0} (api : TargetApi T B) (target_id : Text) (sha256 : List ℕ → Text)
    (root : Option Node) (first : Tables) where
  -- The objects that were discovered are complete.
  Discovered : List ReplicaObject → Tables → T → Type 0
  Discovered objects db t = Evolves first db × IsComplete sha256 root target_id first objects

  -- They are registered.
  Listed : List ReplicaObject → Tables → T → Type 0
  Listed objects db t =
      IsComplete sha256 root target_id first objects × Each (Covers target_id db) objects

  discover-Discovered :
      Triple
        (Idle api target_id sha256 root first)
        (discover sha256 root target_id)
        (λ objects. Open (Discovered objects))
        (λ _ _. Unit)
  unfolding Discovered
  discover-Discovered =
      Triple-weaken _ _ _ _
        (Changes-Open (discover sha256 root target_id) _ (λ db _. Evolves first db) Discovered
          (discover-Reads sha256 root target_id)
          (λ start a d t p (e, (gathered, g, h)). (
            rw e p,
            rw h (
                SameSources-IsComplete sha256 root target_id first start _ p.1
                  (Gathered-IsComplete sha256 root target_id start gathered g)),
          )))
        (λ s (n, p). (n, p.0)) (λ a s p. p) (λ x s p. tt)

  register-Listed :
      (objects : List ReplicaObject)
      → Triple
          (Open (Discovered objects))
          (register_discovered target_id objects)
          (λ _. Open (Listed objects))
          (λ _ _. Unit)
  unfolding Discovered Listed
  register-Listed objects =
      Triple-weaken _ _ _ _
        (Changes-Open (register_discovered target_id objects) _ (Discovered objects)
          (λ _. Listed objects) (register_discovered-Changes target_id objects)
          (λ start n d t p (g, c). (p.1, c)))
        (λ s p. p) (λ a s p. p) (λ x s p. tt)

  pending_objects-Listed :
      (objects : List ReplicaObject)
      → Triple
          (Open (Listed objects))
          (pending_objects target_id)
          (λ waiting. Open (λ db t. Listed objects db t × Left target_id waiting db))
          (λ _ _. Unit)
  unfolding pending_objects
  pending_objects-Listed objects =
      Triple-weaken _ _ _ _
        (Changes-Open (objects_for_state target_id pending) _ (Listed objects)
          (λ waiting db t. Listed objects db t × Left target_id waiting db)
          (objects_for_state-Reads target_id pending)
          (λ start a d t p (e, f). rw e (p, Selected-rows target_id pending start a f)))
        (λ s p. p) (λ a s p. p) (λ x s p. tt)

  publish_loop-Done :
      (b : B) (objects waiting : List ReplicaObject)
      → Triple
          (Open (λ db t. Listed objects db t × Left target_id waiting db))
          (publish_loop api sha256 root b waiting (0, 0))
          (λ _. Done target_id sha256 root first objects)
          (λ _ _. Unit)
  unfolding Listed
  publish_loop-Done b objects waiting = record {
    at = λ s (n, ((c, h), l)).
        (Triple-weaken _ _ _ _
            (Triple-and (publish_loop-Waiting api target_id sha256 root b waiting (0, 0)) (
              publish_loop-Safe api (λ _ _. Unit) (asks_nothing api) target_id s.committed sha256
                root b waiting (0, 0)))
            (λ u p. p) (after s c h) (λ x u p. tt)).at
          s
          (
            (n, l),
            (
              n,
              (
                Evolves-refl s.committed,
                Held-nothing target_id s.target s.committed.replica_objects,
              ),
            ),
          );
  }
    where
      after :
          (s : World T)
          → IsComplete sha256 root target_id first objects
          → Each (Covers target_id s.committed) objects
          → (counts : ℕ × ℕ) (v : World T)
          → Waiting target_id [] v × Safe (λ _ _. Unit) target_id s.committed v
          → Done target_id sha256 root first objects v
      after s c h counts v (p, q) =
          let all = Left-AllVerified target_id v.committed.replica_objects p.1 in
          (
            p.0,
            all,
            c,
            Each-Replicated target_id v.committed all objects
                (Each-Covers target_id s.committed v.committed q.1.0 objects h),
          )

  run_rule :
      Triple
        (Idle api target_id sha256 root first)
        (run api sha256 root target_id)
        (λ summary v.
          (objects : List ReplicaObject) × (summary.discovered ≡ length objects)
          × Done target_id sha256 root first objects v)
        (λ _ _. Unit)
  unfolding run
  run_rule =
      let nothing : T → ReplicaObject → Type 0 = λ _ _. Unit in
      let laws = asks_nothing api in
      idle api target_id sha256 root first _ _ _ (Keeps-lift _) (λ _.
        idle api target_id sha256 root first _ _ _
          (reconcile-Keeps api nothing laws target_id first target_id)
          (λ _.
            idle api target_id sha256 root first _ _ _ (connect-Safe nothing target_id first) (λ _.
              Triple-finally _ rollback (
                idle api target_id sha256 root first _ _ _
                  (load_target-Safe api nothing laws target_id first target_id)
                  (λ marker.
                    idle api target_id sha256 root first _ _ _
                      (bind-Safe api nothing laws target_id first target_id marker)
                      (λ b.
                        Triple-bind _ _ (λ objects. Open (Discovered objects)) discover-Discovered
                          (λ objects.
                            Triple-bind _ _ (λ _. Open (Listed objects)) (register-Listed objects)
                              (λ inserted.
                                Triple-bind _ _
                                  (λ waiting.
                                    Open (λ db t. Listed objects db t × Left target_id waiting db))
                                  (pending_objects-Listed objects)
                                  (λ waiting.
                                    Triple-bind _ _ (λ _. Done target_id sha256 root first objects)
                                      (publish_loop-Done b objects waiting)
                                      (λ counts.
                                        Triple-pure _
                                          (λ s p. (objects, refl, (refl, p.1, p.2, p.3)))))))))))))

-- For any target: if no transaction is open and `run` returns, then no transaction is open
-- afterwards and every row of the target is VERIFIED; and there is a list of as many objects as the
-- summary counts as discovered, which is strictly ascending and misses no finalized file of the
-- tables as they were before the call, and of each of which the table has a VERIFIED row with exactly
-- its size and digest.
pub run-Done :
    {T B : Type 0} (api : TargetApi T B) (target_id : Text) (sha256 : List ℕ → Text)
    (root : Option Node) (w : World T)
    → w.working ≡ none
    → Post
        (λ summary v.
          (objects : List ReplicaObject) × (summary.discovered ≡ length objects)
          × Done target_id sha256 root w.committed objects v)
        (λ _ _. Unit)
        (run api sha256 root target_id w)
run-Done api target_id sha256 root w n =
    (run_rule api target_id sha256 root w.committed).at w
      (n, (Evolves-refl w.committed, Held-nothing target_id w.target w.committed.replica_objects))
