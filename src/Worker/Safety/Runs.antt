-- ===== src/Worker/Safety/Runs.antt =====
-- The invariant of Worker/Safety.antt under `reconcile` (core/worker.py).
use edge_evidence_showcase.Prelude.{ℕ, ◌≡◌, refl, Option, none, some, List, [], ◌∷◌, Text}
use edge_evidence_showcase.Exec.{Exec}
use edge_evidence_showcase.Exec.Triple.{
  Post, Triple, Keeps, Keeps-pure, Keeps-raise, Keeps-lift, Keeps-if, Keeps-finally, Keeps-bind,
  Keeps-at, Triple-pure, Triple-bind, Triple-catch, Triple-weaken, Triple-any,
}
use edge_evidence_showcase.Contracts.{Exn}
use edge_evidence_showcase.Contracts.Objects.{ReplicaObject}
use edge_evidence_showcase.Database.Session.{World, rollback}
use edge_evidence_showcase.Authority.{pending_objects, mark_verified}
use edge_evidence_showcase.Database.{pending, Tables}
use edge_evidence_showcase.Target.{DestinationState, absent, exact, TargetApi, TargetLaws}
use edge_evidence_showcase.Worker.Binding.{on_target, check_row, load_target}
use edge_evidence_showcase.Worker.Reconciling.{
  adopt_exact, reconcile_one, reconcile_loop, reconcile,
}
use edge_evidence_showcase.Worker.Safety.Calls.{
  Safe, connect-Safe, require_current-Safe, target_row-Safe, objects_for_state-Safe, discover-Safe,
  register_discovered-Safe, record_attempt-Safe, record_failure-Safe, mark_verified-Safe,
  on_target-Safe, on_target-Keeps, on_target-held,
}

module _ {T B : Type 0} (api : TargetApi T B) (Holds : T → ReplicaObject → Type 0)
    (laws : TargetLaws api Holds) (target_id : Text) (first : Tables) where
  open laws use {
    bind_preserves, validate_preserves, cleanup_preserves, inspect_preserves, publish_preserves,
    verify_preserves, inspect_exact, publish_holds,
  }

  abbrev pub KeepsSafe : {A : Type 0} → Exec (World T) Exn A → Type 0
  KeepsSafe = Keeps (Safe Holds target_id first)

  pub rollback-Safe :
      (w : World T) → Safe Holds target_id first w → Safe Holds target_id first (rollback w)
  rollback-Safe w p = (refl, p.1)

  check_row-Safe : (row : Option (Text × Text)) → KeepsSafe (check_row api row)
  unfolding check_row
  check_row-Safe none = Keeps-raise _
  check_row-Safe (some (k, m)) = Keeps-if _ _ _ (Keeps-raise _) (Keeps-pure _)

  pub load_target-Safe : (id : Text) → KeepsSafe (load_target api id)
  unfolding load_target
  load_target-Safe id =
      Keeps-bind _ _ (require_current-Safe Holds target_id first)
        (λ _. Keeps-bind _ _ (target_row-Safe Holds target_id first id) check_row-Safe)

  pub bind-Safe : (id marker : Text) → KeepsSafe (on_target (api.bind id marker))
  bind-Safe id marker = on_target-Keeps Holds target_id first _ (bind_preserves id marker)

  pub validate-Safe : (b : B) → KeepsSafe (on_target (api.validate_identity b))
  validate-Safe b = on_target-Keeps Holds target_id first _ (validate_preserves b)

  adopt-Safe :
      (b : B) (obj : ReplicaObject) (counts : ℕ × ℕ) (state : DestinationState)
      → Triple
          (λ w. Safe Holds target_id first w × (state ≡ exact → Holds w.target obj))
          (adopt_exact api b obj counts state)
          (λ _. Safe Holds target_id first)
          (λ _. Safe Holds target_id first)
  unfolding adopt_exact
  adopt-Safe b obj counts absent = Triple-pure counts (λ s p. p.0)
  adopt-Safe b obj counts exact =
      Triple-bind (on_target (api.validate_identity b)) _
        (λ _ w. Safe Holds target_id first w × Holds w.target obj)
        (Triple-weaken _ _ _ _
          (on_target-held Holds target_id first (api.validate_identity b) obj
            (validate_preserves b))
          (λ s (p, h). (p, h refl)) (λ a s p. p) (λ x s p. p))
        (λ _.
          Triple-bind (mark_verified obj) _ (λ _. Safe Holds target_id first)
            (mark_verified-Safe Holds target_id first obj) (λ _. Keeps-pure _))

  reconcile_one-Safe :
      (b : B) (obj : ReplicaObject) (counts : ℕ × ℕ) → KeepsSafe (reconcile_one api b obj counts)
  unfolding reconcile_one
  reconcile_one-Safe b obj counts = Keeps-bind _ _ (validate-Safe b) (λ _.
      Keeps-bind _ _ (on_target-Keeps Holds target_id first _ (cleanup_preserves b obj)) (λ removed.
        Triple-bind (on_target (api.inspect b obj)) _
          (λ state w. Safe Holds target_id first w × (state ≡ exact → Holds w.target obj))
          (Triple-weaken _ _ _ _
            (on_target-Safe Holds target_id first (api.inspect b obj) (λ _. Unit)
              (λ state t. state ≡ exact → Holds t obj) (inspect_preserves b obj)
              (inspect_exact b obj))
            (λ s p. (p, tt)) (λ a s p. p) (λ x s p. p))
          (λ state. adopt-Safe b obj _ state)))

  pub reconcile_loop-Safe :
      (b : B) (objects : List ReplicaObject) (counts : ℕ × ℕ)
      → KeepsSafe (reconcile_loop api b objects counts)
  unfolding reconcile_loop
  reconcile_loop-Safe b [] counts = Keeps-pure counts
  reconcile_loop-Safe b (obj ∷ objects) counts =
      Keeps-bind _ _ (reconcile_one-Safe b obj counts)
        (λ counts'. reconcile_loop-Safe b objects counts')

  pub pending_objects-Safe : (id : Text) → KeepsSafe (pending_objects id)
  unfolding pending_objects
  pending_objects-Safe id = objects_for_state-Safe Holds target_id first id pending

  pub ruleset safe_rules = (
    Keeps-bind, Keeps-pure, Keeps-lift, Keeps-finally, rollback-Safe, connect-Safe,
    load_target-Safe, bind-Safe, validate-Safe, pending_objects-Safe, reconcile_loop-Safe,
  )

  pub reconcile-Keeps : (id : Text) → KeepsSafe (reconcile api id)
  unfolding reconcile
  reconcile-Keeps id = search safe_rules depth 20

-- A notion that asks nothing of the target, for which the promises of its interface hold.
pub asks_nothing : {T B : Type 0} (api : TargetApi T B) → TargetLaws api (λ _ _. Unit)
asks_nothing api = record {
  initialize_preserves = λ _ _. Triple-any _;
  bind_preserves = λ _ _ _. Triple-any _;
  validate_preserves = λ _ _. Triple-any _;
  cleanup_preserves = λ _ _ _. Triple-any _;
  inspect_preserves = λ _ _ _. Triple-any _;
  publish_preserves = λ _ _ _ _. Triple-any _;
  verify_preserves = λ _ _ _. Triple-any _;
  inspect_exact = λ _ _.
      Triple-weaken _ _ _ _ (Triple-any (api.inspect _ _)) (λ s p. p) (λ a s p _. tt) (λ x s p. p);
  publish_holds = λ _ _ _. Triple-any _;
  verify_holds = λ _ _. Triple-any _;
}
