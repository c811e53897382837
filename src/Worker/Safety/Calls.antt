-- ===== src/Worker/Safety/Calls.antt =====
-- The invariant of Worker/Safety.antt under each call that the worker makes.
use edge_evidence_showcase.Prelude.{ℕ, ◌≡◌, Option, some, List, Text}
use edge_evidence_showcase.Exec.{Result, ok, err, Exec}
use edge_evidence_showcase.Exec.Triple.{Post, Triple, Keeps, Triple-weaken}
use edge_evidence_showcase.Contracts.{Exn}
use edge_evidence_showcase.Contracts.Objects.{ReplicaObject}
use edge_evidence_showcase.Database.{ReplicaState, ReplicaRow, Tables}
use edge_evidence_showcase.Database.Schema.{update_replica_rows}
use edge_evidence_showcase.Database.Schema.Evolution.{
  Evolves, RowsEvolve-append, RowsEvolve-trans, SameSources-trans, update_replica_rows-Evolves,
}
use edge_evidence_showcase.Database.Statements.{
  is_pending_row, set_attempt, set_failure, set_verified,
}
use edge_evidence_showcase.Database.Session.{World}
use edge_evidence_showcase.Authority.{
  connect, require_current, target_row, register_discovered, objects_for_state, record_attempt,
  record_failure, mark_verified,
}
use edge_evidence_showcase.Authority.Changes.{
  Reads, Open, Changes-Open, connect-Changes, require_current-Changes, target_row-Reads,
  objects_for_state-Reads, record_attempt-Changes, record_failure-Changes, mark_verified-Changes,
}
use edge_evidence_showcase.Authority.Registration.{Grows, register_discovered-Changes}
use edge_evidence_showcase.Discovery.{discover}
use edge_evidence_showcase.Discovery.Found.{discover-Reads}
use edge_evidence_showcase.Spool.{Node}
use edge_evidence_showcase.Target.{Preserves}
use edge_evidence_showcase.Worker.Binding.{on_target, on_result}
use edge_evidence_showcase.Worker.Safety.{
  Held, Held-attempt, Held-failure, Held-verified, Held-Grows, Held-preserved,
}

pub Grows-Evolves :
    (target_id : Text) (objects : List ReplicaObject) (start db : Tables) (n : ℕ)
    → Grows target_id objects start n db
    → Evolves start db
Grows-Evolves target_id objects start db n (fresh, e, l, p, g, u) =
    (rw e (RowsEvolve-append start.replica_objects fresh), u)

pub Evolves-trans : (a b c : Tables) → Evolves a b → Evolves b c → Evolves a c
Evolves-trans a b c h k = (
  RowsEvolve-trans a.replica_objects b.replica_objects c.replica_objects h.0 k.0,
  SameSources-trans a b c h.1 k.1,
)

module _ {T : Type 0} (Holds : T → ReplicaObject → Type 0) (target_id : Text) (first : Tables) where
  -- The rows have evolved from the tables `first`, and every VERIFIED row of the target is held.
  abbrev pub Kept : Tables → T → Type 0
  Kept db t = Evolves first db × Held Holds target_id db t

  -- No transaction is open, and the above holds of the committed tables.
  abbrev pub Safe : World T → Type 0
  Safe = Open Kept

  step :
      (obj : ReplicaObject) (set : ReplicaRow → ReplicaRow) (a b : Tables)
      → Evolves first a
      → update_replica_rows (is_pending_row obj) set a ≡ some (b, 1)
      → Evolves first b
  step obj set a b h e =
      Evolves-trans first a b h (update_replica_rows-Evolves (is_pending_row obj) set a b 1 e)

  Reads-Safe :
      {A : Type 0} (m : Exec (World T) Exn A) (F : Tables → A → Type 0) → Reads m F → Keeps Safe m
  Reads-Safe m F h = Changes-Open m _ Kept (λ _. Kept) h (λ start a d t p (e, f). rw e p)

  pub connect-Safe : Keeps Safe connect
  connect-Safe = Changes-Open connect _ Kept (λ _. Kept) connect-Changes (λ start a d t p e. rw e p)

  pub require_current-Safe : Keeps Safe require_current
  require_current-Safe = Reads-Safe require_current _ require_current-Changes

  pub target_row-Safe : (id : Text) → Keeps Safe (target_row id)
  target_row-Safe id = Reads-Safe (target_row id) _ (target_row-Reads id)

  pub objects_for_state-Safe :
      (id : Text) (state : ReplicaState) → Keeps Safe (objects_for_state id state)
  objects_for_state-Safe id state = Reads-Safe _ _ (objects_for_state-Reads id state)

  pub discover-Safe :
      (sha256 : List ℕ → Text) (root : Option Node) (id : Text)
      → Keeps Safe (discover sha256 root id)
  discover-Safe sha256 root id = Reads-Safe _ _ (discover-Reads sha256 root id)

  pub register_discovered-Safe :
      (id : Text) (objects : List ReplicaObject) → Keeps Safe (register_discovered id objects)
  register_discovered-Safe id objects =
      Changes-Open _ _ Kept (λ _. Kept) (register_discovered-Changes id objects)
        (λ start n d t (h, p) (g, c). (
          Evolves-trans first start d h (Grows-Evolves id objects start d n g),
          Held-Grows Holds target_id t id objects start d n g p,
        ))

  pub record_attempt-Safe : (obj : ReplicaObject) → Keeps Safe (record_attempt obj)
  record_attempt-Safe obj =
      Changes-Open _ _ Kept (λ _. Kept) (record_attempt-Changes obj)
        (λ start a d t (h, p) e.
          (step obj set_attempt start d h e, Held-attempt Holds target_id obj t start d 1 e p))

  pub record_failure-Safe :
      (obj : ReplicaObject) (finding : Text) → Keeps Safe (record_failure obj finding)
  record_failure-Safe obj finding =
      Changes-Open _ _ Kept (λ _. Kept) (record_failure-Changes obj finding)
        (λ start a d t (h, p) e. (
          step obj (set_failure finding) start d h e,
          Held-failure Holds target_id obj finding t start d 1 e p,
        ))

  -- The one call that needs the object to be held.
  pub mark_verified-Safe :
      (obj : ReplicaObject)
      → Triple (λ w. Safe w × Holds w.target obj) (mark_verified obj) (λ _. Safe) (λ _. Safe)
  mark_verified-Safe obj =
      Triple-weaken (mark_verified obj) _ _ _
        (Changes-Open (mark_verified obj) _ (λ db t. Kept db t × Holds t obj) (λ _. Kept)
          (mark_verified-Changes obj)
          (λ start a d t ((g, p), h) (now, e). (
            step obj (set_verified now) start d g e,
            Held-verified Holds target_id obj now t start d 1 e h p,
          )))
        (λ w (p, h). (p.0, (p.1, h))) (λ _ w p. p) (λ _ w (n, (p, h)). (n, p))

  -- A call of the target that loses nothing, with what else is known before and after it.
  pub on_target-Safe :
      {A : Type 0} (m : Exec T Exn A) (P : T → Type 0) (Q : A → T → Type 0)
      → Preserves Holds m
      → Triple P m Q (λ _ _. Unit)
      → Triple (λ w. Safe w × P w.target) (on_target m) (λ a w. Safe w × Q a w.target) (λ _. Safe)
  unfolding on_target
  on_target-Safe {A} m P Q keep result = record {
    at = λ w (p, h). go w p (m w.target) (result.at w.target h) (λ o k. (keep o).at w.target k);
  }
    where
      go :
          (w : World T)
          → Safe w
          → (r : Result Exn A × T) → Post Q (λ _ _. Unit) r
          → ((o : ReplicaObject) → Holds w.target o → Post (λ _ t. Holds t o) (λ _ t. Holds t o) r)
          → Post (λ a w. Safe w × Q a w.target) (λ _. Safe) (on_result w r)
      go w p (ok a, t) q f = (
        (
          p.0,
          (p.1.0, Held-preserved Holds target_id w.target t f w.committed.replica_objects p.1.1),
        ),
        q,
      )
      go w p (err x, t) q f = (
        p.0,
        (p.1.0, Held-preserved Holds target_id w.target t f w.committed.replica_objects p.1.1),
      )

  pub on_target-Keeps :
      {A : Type 0} (m : Exec T Exn A) → Preserves Holds m → Keeps Safe (on_target m)
  on_target-Keeps {A} m keep =
      Triple-weaken (on_target m) _ _ _
        (on_target-Safe m (λ _. Unit) (λ _ _. Unit) keep (record { at = λ t _. trivially (m t) }))
        (λ s p. (p, tt)) (λ a s p. p.0) (λ x s p. p)
    where
      trivially : (r : Result Exn A × T) → Post (λ _ _. Unit) (λ _ _. Unit) r
      trivially (ok a, t) = tt
      trivially (err x, t) = tt

  -- An object that is held stays held.
  pub on_target-held :
      {A : Type 0} (m : Exec T Exn A) (obj : ReplicaObject)
      → Preserves Holds m
      → Triple
          (λ w. Safe w × Holds w.target obj)
          (on_target m)
          (λ _ w. Safe w × Holds w.target obj)
          (λ _. Safe)
  on_target-held m obj keep =
      on_target-Safe m (λ t. Holds t obj) (λ _ t. Holds t obj) keep
        (Triple-weaken m _ _ _ (keep obj) (λ s p. p) (λ a s p. p) (λ x s p. tt))
