-- ===== src/Target.antt =====
-- components/replication-worker/packages/replication/contracts/target.py: the interface of a
-- replication target, which its adapters implement. `T` is the provider's state, `B` a bound target.
use edge_evidence_showcase.Prelude.{Bool, Option, Text, ◌≡◌}
use edge_evidence_showcase.Exec.{Exec}
use edge_evidence_showcase.Exec.Triple.{Triple}
use edge_evidence_showcase.Contracts.{Exn}
use edge_evidence_showcase.Contracts.Objects.{ReplicaObject}
use edge_evidence_showcase.Spool.{Node}

pub data DestinationState : Type 0 where
  absent exact : DestinationState

pub data PublishResult : Type 0 where
  published adopted : PublishResult

-- ReplicationTarget and BoundReplicationTarget
pub record TargetApi (T B : Type 0) : Type 0 where
  pub adapter_kind : Text
  pub initialize : Text → Exec T Exn Text
  pub bind : Text → Text → Exec T Exn B
  pub validate_identity : B → Exec T Exn Unit
  pub cleanup_transient : B → ReplicaObject → Exec T Exn Bool
  pub inspect : B → ReplicaObject → Exec T Exn DestinationState
  pub publish_immutable : B → Option Node → ReplicaObject → Exec T Exn PublishResult
  pub verify : B → ReplicaObject → Exec T Exn Unit

-- What a call may not do to the destination: what it holds, it holds afterwards.
abbrev pub Preserves : {T A : Type 0} → (T → ReplicaObject → Type 0) → Exec T Exn A → Type 0
Preserves Holds m =
    (obj : ReplicaObject) → Triple (λ t. Holds t obj) m (λ _ t. Holds t obj) (λ _ t. Holds t obj)

-- The promises in the interface's docstrings, of a notion `Holds t obj`, that the destination has
-- the exact bytes of the object: no call overwrites or removes them ("never overwrite", "remove
-- only transient state"), `inspect` says "exact" only of an object that is held,
-- `publish_immutable` returns only when it is held ("create only if absent or adopt exact bytes"),
-- and so does `verify` ("read back and verify expected object size/content identity").
pub record TargetLaws {T B : Type 0} (api : TargetApi T B) (Holds : T → ReplicaObject → Type 0)
    : Type 0 where
  pub initialize_preserves : (target_id : Text) → Preserves Holds (api.initialize target_id)
  pub bind_preserves : (target_id marker : Text) → Preserves Holds (api.bind target_id marker)
  pub validate_preserves : (b : B) → Preserves Holds (api.validate_identity b)
  pub cleanup_preserves : (b : B) (o : ReplicaObject) → Preserves Holds (api.cleanup_transient b o)
  pub inspect_preserves : (b : B) (o : ReplicaObject) → Preserves Holds (api.inspect b o)
  pub publish_preserves :
      (b : B) (root : Option Node) (o : ReplicaObject)
      → Preserves Holds (api.publish_immutable b root o)
  pub verify_preserves : (b : B) (o : ReplicaObject) → Preserves Holds (api.verify b o)
  pub inspect_exact :
      (b : B) (o : ReplicaObject)
      → Triple (λ _. Unit) (api.inspect b o) (λ r t. r ≡ exact → Holds t o) (λ _ _. Unit)
  pub publish_holds :
      (b : B) (root : Option Node) (o : ReplicaObject)
      → Triple (λ _. Unit) (api.publish_immutable b root o) (λ _ t. Holds t o) (λ _ _. Unit)
  pub verify_holds :
      (b : B) (o : ReplicaObject)
      → Triple (λ _. Unit) (api.verify b o) (λ _ t. Holds t o) (λ _ _. Unit)
