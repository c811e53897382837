-- ===== src/Worker/Completion/Loops.antt =====
-- The loop of `run` (core/worker.py), and the rows of its target after it.
use edge_evidence_showcase.Prelude.{
  not, ◌||◌, ◌==◌, text_eq, ℕ, ◌≡◌, refl, Option, List, [], ◌∷◌, Text, Each,
}
use edge_evidence_showcase.Exec.{Exec, raise, lift, ◌>>=◌}
use edge_evidence_showcase.Exec.Triple.{
  Triple-if, Triple, Triple-pure, Triple-raise, Triple-lift, Triple-bind, Triple-catch,
  Triple-weaken, Triple-any, Keeps,
}
use edge_evidence_showcase.Contracts.{Exn, failure, replication, sqlite_error, foreign}
use edge_evidence_showcase.Contracts.Objects.{ReplicaObject}
use edge_evidence_showcase.Database.{ReplicaState, pending, verified, ReplicaRow, Tables}
use edge_evidence_showcase.Database.Session.{World}
use edge_evidence_showcase.Spool.{Node, local_size_and_hash}
use edge_evidence_showcase.Authority.{record_attempt, record_failure, mark_verified}
use edge_evidence_showcase.Target.{PublishResult, TargetApi}
use edge_evidence_showcase.Worker.Binding.{on_target}
use edge_evidence_showcase.Worker.Safety.{RowHeld}
use edge_evidence_showcase.Worker.Safety.Calls.{Safe}
use edge_evidence_showcase.Worker.Running.{
  publish_read, publish_checked, failed, publish_one, publish_loop,
}
use edge_evidence_showcase.Worker.Completion.{
  LeftRow, Waiting, on_target-Waiting, record_attempt-Waiting, mark_verified-Waiting,
}

module _ {T B : Type 0} (api : TargetApi T B) (target_id : Text) (sha256 : List ℕ → Text)
    (root : Option Node) where
  publish_read-Waiting :
      (objects : List ReplicaObject) (b : B) (obj : ReplicaObject) (source : ℕ × Text)
      → Triple
          (Waiting target_id objects)
          (publish_read api sha256 root b obj source)
          (λ _. Waiting target_id objects)
          (λ _ _. Unit)
  unfolding publish_read
  publish_read-Waiting objects b obj (size, digest) =
      Triple-if (not (size == obj.expected_byte_size) || not (text_eq digest obj.expected_sha256))
        (raise (failure "local_source_corrupt" 6)) (on_target (api.publish_immutable b root obj))
        (λ _. Triple-raise _ (λ s p. tt))
        (λ _. on_target-Waiting target_id objects (api.publish_immutable b root obj))

  publish_checked-Waiting :
      (objects : List ReplicaObject) (b : B) (obj : ReplicaObject)
      → Triple
          (Waiting target_id objects)
          (publish_checked api sha256 root b obj)
          (λ _. Waiting target_id objects)
          (λ _ _. Unit)
  unfolding publish_checked
  publish_checked-Waiting objects b obj =
      Triple-bind (lift (local_size_and_hash sha256 root obj.relative_uri)) _
        (λ _. Waiting target_id objects) (Triple-lift _ (λ a h s p. p) (λ x h s p. tt))
        (publish_read-Waiting objects b obj)

  -- The handler always raises.
  failed-raises :
      (obj : ReplicaObject) (Q : PublishResult → World T → Type 0) (x : Exn)
      → Triple (λ _. Unit) (failed api sha256 root obj x) Q (λ _ _. Unit)
  unfolding failed
  failed-raises obj Q (replication e) =
      Triple-bind (record_failure obj e.finding) _ (λ _ _. Unit)
        (Triple-any (record_failure obj e.finding)) (λ _. Triple-raise _ (λ s p. tt))
  failed-raises obj Q sqlite_error = Triple-raise _ (λ s p. tt)
  failed-raises obj Q (foreign n) = Triple-raise _ (λ s p. tt)

  publish_one-Waiting :
      (objects : List ReplicaObject) (b : B) (obj : ReplicaObject) (counts : ℕ × ℕ)
      → Triple
          (Waiting target_id (obj ∷ objects))
          (publish_one api sha256 root b obj counts)
          (λ _. Waiting target_id objects)
          (λ _ _. Unit)
  unfolding publish_one
  publish_one-Waiting objects b obj counts =
      Triple-bind _ _ (λ _. Waiting target_id (obj ∷ objects))
        (on_target-Waiting target_id (obj ∷ objects) (api.validate_identity b))
        (λ _.
          Triple-bind (record_attempt obj) _ (λ _. Waiting target_id (obj ∷ objects))
            (record_attempt-Waiting target_id (obj ∷ objects) obj)
            (λ _.
              Triple-bind _ _ (λ _. Waiting target_id (obj ∷ objects))
                (Triple-catch (publish_checked api sha256 root b obj) _ (λ _ _. Unit)
                  (publish_checked-Waiting (obj ∷ objects) b obj) (failed-raises obj _))
                (λ result.
                  Triple-bind (mark_verified obj) _ (λ _. Waiting target_id objects)
                    (mark_verified-Waiting target_id objects obj) (λ _. Triple-pure _ (λ s p. p)))))

  pub publish_loop-Waiting :
      (b : B) (objects : List ReplicaObject) (counts : ℕ × ℕ)
      → Triple
          (Waiting target_id objects)
          (publish_loop api sha256 root b objects counts)
          (λ _. Waiting target_id [])
          (λ _ _. Unit)
  unfolding publish_loop
  publish_loop-Waiting b [] counts = Triple-pure counts (λ s p. p)
  publish_loop-Waiting b (obj ∷ objects) counts =
      Triple-bind _ _ (λ _. Waiting target_id objects) (publish_one-Waiting objects b obj counts)
        (λ counts'. publish_loop-Waiting b objects counts')

  module _ (first : Tables) where
    abbrev pub Idle : World T → Type 0
    Idle = Safe (λ _ _. Unit) target_id first

    pub idle :
        {A C : Type 0} (m : Exec (World T) Exn A) (f : A → Exec (World T) Exn C)
        (Q : C → World T → Type 0)
        → Keeps Idle m
        → ((a : A) → Triple Idle (f a) Q (λ _ _. Unit))
        → Triple Idle (m >>= f) Q (λ _ _. Unit)
    idle m f Q k h =
        Triple-bind m f (λ _. Idle) (Triple-weaken m _ _ _ k (λ s p. p) (λ a s p. p) (λ x s p. tt))
          h

-- Each row of the target is VERIFIED.
abbrev pub AllVerified : Text → Tables → Type 0
AllVerified target_id db =
    Each (λ r. r.target_id ≡ target_id → r.state ≡ verified) db.replica_objects

not_pending : (state : ReplicaState) → (state ≡ pending → ⊥) → state ≡ verified
not_pending pending f = absurd (f refl)
not_pending verified f = refl

pub Left-AllVerified :
    (target_id : Text) (rs : List ReplicaRow)
    → Each (LeftRow target_id []) rs
    → Each (λ r. r.target_id ≡ target_id → r.state ≡ verified) rs
Left-AllVerified target_id [] h = tt
Left-AllVerified target_id (r ∷ rs) (f, h) =
    (λ t. not_pending r.state (λ p. f (t, p)), Left-AllVerified target_id rs h)

pub Held-nothing :
    {T : Type 0} (target_id : Text) (t : T) (rs : List ReplicaRow)
    → Each (RowHeld (λ _ _. Unit) target_id t) rs
Held-nothing target_id t [] = tt
Held-nothing target_id t (r ∷ rs) = (λ _ _. tt, Held-nothing target_id t rs)
