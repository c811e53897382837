-- ===== src/Worker/Safety.antt =====
-- For core/worker.py: the invariant that ties the VERIFIED rows to what the target holds.
pub mod Calls
pub mod Runs
pub mod Publishing
use edge_evidence_showcase.Prelude.{
  ℕ, ◌≡◌, refl, sym, ◌∙◌, Bool, true, false, Option, some, List, [], ◌∷◌, ◌++◌, Text, Each, inl,
  inr,
}
use edge_evidence_showcase.Exec.{Result, ok, err, Exec}
use edge_evidence_showcase.Exec.Triple.{Post, Triple, Triple-weaken}
use edge_evidence_showcase.Contracts.{Exn}
use edge_evidence_showcase.Contracts.Objects.{ReplicaObject}
use edge_evidence_showcase.Database.{ReplicaState, pending, verified, ReplicaRow, Tables}
use edge_evidence_showcase.Database.Schema.{update_replica_rows}
use edge_evidence_showcase.Database.Schema.Updates.{
  Updated, AllUpdated, update_replica_rows-AllUpdated,
}
use edge_evidence_showcase.Database.Statements.{
  is_pending_row, set_attempt, set_failure, set_verified,
}
use edge_evidence_showcase.Authority.Lifecycle.{IsPendingFor, matched}
use edge_evidence_showcase.Authority.Registration.{IsFresh, Grows}

module _ {T : Type 0} (Holds : T → ReplicaObject → Type 0) (target_id : Text) where
  -- If the row is a VERIFIED row of this target, then the target holds its object.
  abbrev pub RowHeld : T → ReplicaRow → Type 0
  RowHeld t r = r.target_id ≡ target_id → r.state ≡ verified → Holds t r.object

  abbrev pub Held : Tables → T → Type 0
  Held db t = Each (RowHeld t) db.replica_objects

  Each-AllUpdated :
      (where_row : ReplicaRow → Bool) (set : ReplicaRow → ReplicaRow) (t : T)
      → ((r : ReplicaRow) → where_row r ≡ true → RowHeld t (set r))
      → (rs ss : List ReplicaRow) → AllUpdated where_row set rs ss
      → Each (RowHeld t) rs
      → Each (RowHeld t) ss
  Each-AllUpdated w set t f [] [] h k = tt
  Each-AllUpdated w set t f [] (s ∷ ss) h k = absurd h
  Each-AllUpdated w set t f (r ∷ rs) [] h k = absurd h
  Each-AllUpdated w set t f (r ∷ rs) (s ∷ ss) (inl (a, e), h) k =
      (rw e k.0, Each-AllUpdated w set t f rs ss h k.1)
  Each-AllUpdated w set t f (r ∷ rs) (s ∷ ss) (inr (a, e, g, c), h) k =
      (rw e (f r a), Each-AllUpdated w set t f rs ss h k.1)

  Held-update :
      (obj : ReplicaObject) (set : ReplicaRow → ReplicaRow) (t : T)
      → ((r : ReplicaRow) → IsPendingFor obj r → RowHeld t (set r))
      → (db db' : Tables) (n : ℕ) → update_replica_rows (is_pending_row obj) set db ≡ some (db', n)
      → Held db t
      → Held db' t
  Held-update obj set t f db db' n h =
      Each-AllUpdated (is_pending_row obj) set t (λ r m. f r (matched obj r m)) db.replica_objects
        db'.replica_objects (update_replica_rows-AllUpdated (is_pending_row obj) set db db' n h).0

  pub Held-attempt :
      (obj : ReplicaObject) (t : T) (db db' : Tables) (n : ℕ)
      → update_replica_rows (is_pending_row obj) set_attempt db ≡ some (db', n)
      → Held db t
      → Held db' t
  unfolding set_attempt
  Held-attempt obj t = Held-update obj set_attempt t (λ r p _ v. cc (p.1))

  pub Held-failure :
      (obj : ReplicaObject) (finding : Text) (t : T) (db db' : Tables) (n : ℕ)
      → update_replica_rows (is_pending_row obj) (set_failure finding) db ≡ some (db', n)
      → Held db t
      → Held db' t
  unfolding set_failure
  Held-failure obj finding t = Held-update obj (set_failure finding) t (λ r p _ v. cc (p.1))

  pub Held-verified :
      (obj : ReplicaObject) (now : ℕ) (t : T) (db db' : Tables) (n : ℕ)
      → update_replica_rows (is_pending_row obj) (set_verified now) db ≡ some (db', n)
      → Holds t obj
      → Held db t
      → Held db' t
  unfolding set_verified
  Held-verified obj now t db db' n h held =
      Held-update obj (set_verified now) t (λ r p _ _. rw (p.0) held) db db' n h

  Each-append :
      {A : Type 0} (P : A → Type 0) (xs ys : List A) → Each P xs → Each P ys → Each P (xs ++ ys)
  Each-append P [] ys h k = k
  Each-append P (x ∷ xs) ys h k = (h.0, Each-append P xs ys h.1 k)

  fresh_held :
      (t : T) (id : Text) (objects : List ReplicaObject) (rs : List ReplicaRow)
      → Each (IsFresh id objects) rs
      → Each (RowHeld t) rs
  fresh_held t id objects [] h = tt
  fresh_held t id objects (r ∷ rs) h = (λ _ v. cc (h.0.0), fresh_held t id objects rs h.1)

  pub Held-Grows :
      (t : T) (id : Text) (objects : List ReplicaObject) (start db : Tables) (n : ℕ)
      → Grows id objects start n db
      → Held start t
      → Held db t
  Held-Grows t id objects start db n (fresh, e, l, (p, q), g, u) h =
      rw e (Each-append (RowHeld t) start.replica_objects fresh h (fresh_held t id objects fresh p))

  pub Held-preserved :
      (t t' : T)
      → ((obj : ReplicaObject) → Holds t obj → Holds t' obj)
      → (rs : List ReplicaRow) → Each (RowHeld t) rs
      → Each (RowHeld t') rs
  Held-preserved t t' f [] h = tt
  Held-preserved t t' f (r ∷ rs) h = (λ m v. f r.object (h.0 m v), Held-preserved t t' f rs h.1)
