-- ===== src/Worker/Running.antt =====
-- components/replication-worker/packages/replication/core/worker.py:
-- `run`.
use edge_evidence_showcase.Prelude.{
  ℕ, ◌+◌, not, ◌||◌, Option, List, [], ◌∷◌, Text, text_eq, length, ◌==◌, if◌then◌else◌,
}
use edge_evidence_showcase.Exec.{Exec, pure, raise, lift, catch, finally, ◌>>=◌, ◌>>◌}
use edge_evidence_showcase.Contracts.{
  Exn, replication, sqlite_error, foreign, failure, validate_target_id,
}
use edge_evidence_showcase.Contracts.Objects.{ReplicaObject}
use edge_evidence_showcase.Database.Session.{World, rollback}
use edge_evidence_showcase.Spool.{Node, local_size_and_hash}
use edge_evidence_showcase.Authority.{
  connect, register_discovered, pending_objects, record_attempt, record_failure, mark_verified,
}
use edge_evidence_showcase.Discovery.{discover}
use edge_evidence_showcase.Target.{PublishResult, published, adopted, TargetApi}
use edge_evidence_showcase.Worker.Binding.{RunSummary, on_target, load_target}
use edge_evidence_showcase.Worker.Reconciling.{reconcile}

module _ {T B : Type 0} (api : TargetApi T B) (sha256 : List ℕ → Text) (root : Option Node) where
  -- The `try` of the loop in run, by the size and digest of the source.
  unfoldable pub publish_read : B → ReplicaObject → ℕ × Text → Exec (World T) Exn PublishResult
  unfolding on_target
  publish_read bound obj (size, digest) =
      if not (size == obj.expected_byte_size) || not (text_eq digest obj.expected_sha256)
      then raise (failure "local_source_corrupt" 6)
      else on_target (api.publish_immutable bound root obj)

  unfoldable pub publish_checked : B → ReplicaObject → Exec (World T) Exn PublishResult
  unfolding publish_read
  publish_checked bound obj = do
    source ← lift (local_size_and_hash sha256 root obj.relative_uri)
    publish_read bound obj source

  -- except ReplicationError: record_failure, raise
  unfoldable pub failed : ReplicaObject → Exn → Exec (World T) Exn PublishResult
  unfolding record_failure
  failed obj (replication e) = do record_failure obj e.finding; raise (replication e)
  failed obj sqlite_error = raise sqlite_error
  failed obj (foreign n) = raise (foreign n)

  unfoldable pub count_result : PublishResult → ℕ × ℕ → ℕ × ℕ
  count_result published (n, m) = (n + 1, m)
  count_result adopted (n, m) = (n, m + 1)

  -- One object of the loop in run, with `published` and `adopted`.
  unfoldable pub publish_one : B → ReplicaObject → ℕ × ℕ → Exec (World T) Exn (ℕ × ℕ)
  unfolding on_target record_attempt publish_checked failed mark_verified count_result
  publish_one bound obj counts = do
    on_target (api.validate_identity bound)
    record_attempt obj
    result ← catch (publish_checked bound obj) (failed obj)
    mark_verified obj
    pure (count_result result counts)

  unfoldable pub publish_loop : B → List ReplicaObject → ℕ × ℕ → Exec (World T) Exn (ℕ × ℕ)
  unfolding publish_one
  publish_loop bound [] counts = pure counts
  publish_loop bound (obj ∷ objects) counts = do
    counts' ← publish_one bound obj counts
    publish_loop bound objects counts'

  -- run
  unfoldable pub run : Text → Exec (World T) Exn RunSummary
  unfolding reconcile connect load_target on_target discover register_discovered publish_loop
  run target_id = do
    lift (validate_target_id target_id)
    reconciled ← reconcile api target_id
    connect
    finally
        (do
          marker_sha256 ← load_target api target_id
          bound ← on_target (api.bind target_id marker_sha256)
          objects ← discover sha256 root target_id
          inserted ← register_discovered target_id objects
          pending ← pending_objects target_id
          counts ← publish_loop bound pending (0, 0)
          pure (record {
            discovered = length objects;
            inserted = inserted;
            published = counts.0;
            adopted = counts.1 + reconciled.adopted;
            verified = counts.0 + counts.1 + reconciled.verified;
            partials_cleaned = reconciled.partials_cleaned;
          }))
        rollback
