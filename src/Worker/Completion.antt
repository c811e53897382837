-- ===== src/Worker/Completion.antt =====
-- What is left to do of a target while the loop of `run` (core/worker.py) goes on: the objects of its
-- PENDING rows.
pub mod Loops
pub mod Replicated
use edge_evidence_showcase.Prelude.{
  not, ◌||◌, ◌==◌, text_eq, ℕ, ◌≡◌, refl, Bool, true, false, Option, none, some, List, [], ◌∷◌,
  Text, In, inl, inr, Each,
}
use edge_evidence_showcase.Exec.{Result, ok, err, Exec, raise, lift, ◌>>=◌}
use edge_evidence_showcase.Exec.Triple.{
  Post, Triple-if, Triple, Triple-pure, Triple-raise, Triple-lift, Triple-bind, Triple-catch,
  Triple-finally, Triple-weaken, Triple-any, Keeps, Keeps-lift,
}
use edge_evidence_showcase.Contracts.{Exn, failure, replication, sqlite_error, foreign}
use edge_evidence_showcase.Contracts.Objects.{ReplicaObject}
use edge_evidence_showcase.Database.{ReplicaState, pending, verified, ReplicaRow, Tables}
use edge_evidence_showcase.Database.Schema.{update_replica_rows}
use edge_evidence_showcase.Database.Schema.Updates.{AllUpdated, update_replica_rows-AllUpdated}
use edge_evidence_showcase.Database.Statements.{is_pending_row, set_attempt, set_verified}
use edge_evidence_showcase.Database.Session.{World, rollback}
use edge_evidence_showcase.Spool.{Node, local_size_and_hash}
use edge_evidence_showcase.Authority.{
  objects_for_state, pending_objects, record_attempt, record_failure, mark_verified,
}
use edge_evidence_showcase.Authority.Changes.{
  Open, Changes-Open, record_attempt-Changes, mark_verified-Changes, objects_for_state-Reads,
}
use edge_evidence_showcase.Authority.Lifecycle.{unmatched}
use edge_evidence_showcase.Authority.Selection.{IsIn, Selected-rows}
use edge_evidence_showcase.Target.{PublishResult, TargetApi}
use edge_evidence_showcase.Worker.Binding.{on_target}
use edge_evidence_showcase.Worker.Binding.{on_result}
use edge_evidence_showcase.Target.{TargetLaws}
use edge_evidence_showcase.Worker.Safety.{RowHeld}
use edge_evidence_showcase.Worker.Safety.Calls.{
  Safe, connect-Safe, discover-Safe, register_discovered-Safe,
}
use edge_evidence_showcase.Worker.Safety.Runs.{load_target-Safe, bind-Safe, reconcile-Keeps}
use edge_evidence_showcase.Worker.Running.{
  publish_read, publish_checked, failed, publish_one, publish_loop, run,
}

-- Each PENDING row of the target is of an object of the list.
abbrev pub LeftRow : Text → List ReplicaObject → ReplicaRow → Type 0
LeftRow target_id objects r = IsIn target_id pending r → In r.object objects

abbrev pub Left : Text → List ReplicaObject → Tables → Type 0
Left target_id objects db = Each (LeftRow target_id objects) db.replica_objects

module _ (target_id : Text) where
  AllUpdated-Left :
      (where_row : ReplicaRow → Bool) (set : ReplicaRow → ReplicaRow) (os ps : List ReplicaObject)
      → ((r : ReplicaRow)
          → LeftRow target_id os r
          → (where_row r ≡ false → LeftRow target_id ps r)
            × (where_row r ≡ true → LeftRow target_id ps (set r)))
      → (rs ss : List ReplicaRow) → AllUpdated where_row set rs ss
      → Each (LeftRow target_id os) rs
      → Each (LeftRow target_id ps) ss
  AllUpdated-Left w set os ps f [] [] h k = tt
  AllUpdated-Left w set os ps f [] (s ∷ ss) h k = absurd h
  AllUpdated-Left w set os ps f (r ∷ rs) [] h k = absurd h
  AllUpdated-Left w set os ps f (r ∷ rs) (s ∷ ss) (inl (a, e), h) k =
      (rw e ((f r k.0).0 a), AllUpdated-Left w set os ps f rs ss h k.1)
  AllUpdated-Left w set os ps f (r ∷ rs) (s ∷ ss) (inr (a, e, g, c), h) k =
      (rw e ((f r k.0).1 a), AllUpdated-Left w set os ps f rs ss h k.1)

  Left-attempt :
      (obj : ReplicaObject) (objects : List ReplicaObject) (db db' : Tables) (n : ℕ)
      → update_replica_rows (is_pending_row obj) set_attempt db ≡ some (db', n)
      → Left target_id objects db
      → Left target_id objects db'
  unfolding set_attempt
  Left-attempt obj objects db db' n h =
      AllUpdated-Left (is_pending_row obj) set_attempt objects objects (λ r k. (λ _. k, λ _. k))
        db.replica_objects db'.replica_objects
        (update_replica_rows-AllUpdated (is_pending_row obj) set_attempt db db' n h).0

  Left-verified :
      (obj : ReplicaObject) (objects : List ReplicaObject) (now : ℕ) (db db' : Tables) (n : ℕ)
      → update_replica_rows (is_pending_row obj) (set_verified now) db ≡ some (db', n)
      → Left target_id (obj ∷ objects) db
      → Left target_id objects db'
  unfolding set_verified
  Left-verified obj objects now db db' n h =
      AllUpdated-Left (is_pending_row obj) (set_verified now) (obj ∷ objects) objects
        (λ r k. (
          λ f (t, p). elim (k (t, p)) [ inl e ↦ absurd (unmatched obj r f (e, p)) | inr i ↦ i ],
          λ _ (t, p). cc,
        ))
        db.replica_objects db'.replica_objects
        (update_replica_rows-AllUpdated (is_pending_row obj) (set_verified now) db db' n h).0

  -- No transaction is open, and each PENDING row of the target is of an object of the list.
  abbrev pub Waiting : {T : Type 0} → List ReplicaObject → World T → Type 0
  Waiting objects = Open (λ db _. Left target_id objects db)

  module _ {T : Type 0} where
    pub on_target-Waiting :
        {A : Type 0} (objects : List ReplicaObject) (m : Exec T Exn A)
        → Triple (Waiting objects) (on_target m) (λ _. Waiting objects) (λ _ _. Unit)
    unfolding on_target
    on_target-Waiting {A} objects m = record { at = λ w p. go w p (m w.target) }
      where
        go :
            (w : World T)
            → Waiting objects w
            → (r : Result Exn A × T) → Post (λ _. Waiting objects) (λ _ _. Unit) (on_result w r)
        go w p (ok a, t) = p
        go w p (err x, t) = tt

    pub record_attempt-Waiting :
        (objects : List ReplicaObject) (obj : ReplicaObject)
        → Triple {S = World T}
            (Waiting objects)
            (record_attempt obj)
            (λ _. Waiting objects)
            (λ _ _. Unit)
    record_attempt-Waiting objects obj =
        Triple-weaken _ _ _ _
          (Changes-Open (record_attempt obj) _ (λ db _. Left target_id objects db)
            (λ _ db _. Left target_id objects db) (record_attempt-Changes obj)
            (λ start a d t p q. Left-attempt obj objects start d 1 q p))
          (λ s p. p) (λ a s p. p) (λ x s p. tt)

    pub mark_verified-Waiting :
        (objects : List ReplicaObject) (obj : ReplicaObject)
        → Triple {S = World T}
            (Waiting (obj ∷ objects))
            (mark_verified obj)
            (λ _. Waiting objects)
            (λ _ _. Unit)
    mark_verified-Waiting objects obj =
        Triple-weaken _ _ _ _
          (Changes-Open (mark_verified obj) _ (λ db _. Left target_id (obj ∷ objects) db)
            (λ _ db _. Left target_id objects db) (mark_verified-Changes obj)
            (λ start a d t p (now, q). Left-verified obj objects now start d 1 q p))
          (λ s p. p) (λ a s p. p) (λ x s p. tt)

    pub pending_objects-Waiting :
        (P : Tables → T → Type 0)
        → Triple (Open P) (pending_objects target_id) Waiting (λ _ _. Unit)
    unfolding pending_objects
    pending_objects-Waiting P =
        Triple-weaken _ _ _ _
          (Changes-Open (objects_for_state target_id pending) _ P
            (λ objects db _. Left target_id objects db) (objects_for_state-Reads target_id pending)
            (λ start a d t p (e, f). rw e (Selected-rows target_id pending start a f)))
          (λ s p. p) (λ a s p. p) (λ x s p. tt)
