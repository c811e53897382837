-- ===== src/Worker/Reconciling.antt =====
-- components/replication-worker/packages/replication/core/worker.py:
-- `reconcile` and `verify`.
use edge_evidence_showcase.Prelude.{ℕ, ◌+◌, List, [], ◌∷◌, Text, length, if◌then◌else◌}
use edge_evidence_showcase.Exec.{Exec, pure, lift, finally, ◌>>=◌, ◌>>◌}
use edge_evidence_showcase.Contracts.{Exn, validate_target_id}
use edge_evidence_showcase.Contracts.Objects.{ReplicaObject}
use edge_evidence_showcase.Database.Session.{World, rollback}
use edge_evidence_showcase.Authority.{connect, pending_objects, verified_objects, mark_verified}
use edge_evidence_showcase.Target.{DestinationState, absent, exact, TargetApi}
use edge_evidence_showcase.Worker.Binding.{RunSummary, no_work, on_target, load_target}

module _ {T B : Type 0} (api : TargetApi T B) where
  -- What the loop in reconcile does by the state that it finds, with the counts `cleaned` and
  -- `adopted`.
  unfoldable pub adopt_exact :
      B → ReplicaObject → ℕ × ℕ → DestinationState → Exec (World T) Exn (ℕ × ℕ)
  unfolding on_target mark_verified
  adopt_exact bound obj counts absent = pure counts
  adopt_exact bound obj (n, m) exact = do
    on_target (api.validate_identity bound)
    mark_verified obj
    pure (n, m + 1)

  -- One object of the loop in reconcile.
  unfoldable pub reconcile_one : B → ReplicaObject → ℕ × ℕ → Exec (World T) Exn (ℕ × ℕ)
  unfolding on_target adopt_exact
  reconcile_one bound obj (n, m) = do
    on_target (api.validate_identity bound)
    removed ← on_target (api.cleanup_transient bound obj)
    state ← on_target (api.inspect bound obj)
    adopt_exact bound obj (if removed then n + 1 else n, m) state

  unfoldable pub reconcile_loop : B → List ReplicaObject → ℕ × ℕ → Exec (World T) Exn (ℕ × ℕ)
  unfolding reconcile_one
  reconcile_loop bound [] counts = pure counts
  reconcile_loop bound (obj ∷ objects) counts = do
    counts' ← reconcile_one bound obj counts
    reconcile_loop bound objects counts'

  -- reconcile: it does not use its spool root
  unfoldable pub reconcile : Text → Exec (World T) Exn RunSummary
  unfolding connect load_target on_target pending_objects reconcile_loop
  reconcile target_id = do
    lift (validate_target_id target_id)
    connect
    finally
        (do
          marker_sha256 ← load_target api target_id
          bound ← on_target (api.bind target_id marker_sha256)
          objects ← pending_objects target_id
          counts ← reconcile_loop bound objects (0, 0)
          pure (record no_work {
            adopted = counts.1;
            verified = counts.1;
            partials_cleaned = counts.0;
          }))
        rollback

  unfoldable pub verify_loop : B → List ReplicaObject → Exec (World T) Exn Unit
  unfolding on_target
  verify_loop bound [] = pure tt
  verify_loop bound (obj ∷ objects) = do
    on_target (api.validate_identity bound)
    on_target (api.verify bound obj)
    verify_loop bound objects

  -- verify
  unfoldable pub verify : Text → Exec (World T) Exn RunSummary
  unfolding connect load_target on_target verified_objects verify_loop
  verify target_id = do
    lift (validate_target_id target_id)
    connect
    finally
        (do
          marker_sha256 ← load_target api target_id
          bound ← on_target (api.bind target_id marker_sha256)
          objects ← verified_objects target_id
          verify_loop bound objects
          on_target (api.validate_identity bound)
          pure (record no_work { verified = length objects }))
        rollback
