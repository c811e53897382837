-- ===== src/Worker/Binding.antt =====
-- components/replication-worker/packages/replication/core/worker.py:
-- the summary, `_load_target` and `init_target`.
use edge_evidence_showcase.Prelude.{ℕ, not, ◌&&◌, Option, none, some, Text, text_eq, if◌then◌else◌}
use edge_evidence_showcase.Exec.{Result, err, Exec, pure, raise, lift, catch, finally, ◌>>=◌, ◌>>◌}
use edge_evidence_showcase.Contracts.{
  Exn, replication, sqlite_error, foreign, failure, validate_target_id,
}
use edge_evidence_showcase.Database.Session.{World, begin, commit, rollback}
use edge_evidence_showcase.Authority.{connect, require_current, target_row, insert_target}
use edge_evidence_showcase.Target.{TargetApi}

pub record RunSummary : Type 0 where
  pub discovered : ℕ
  pub inserted : ℕ
  pub published : ℕ
  pub adopted : ℕ
  pub verified : ℕ
  pub partials_cleaned : ℕ

-- RunSummary()
abbrev pub no_work : RunSummary
no_work = record {
  discovered = 0;
  inserted = 0;
  published = 0;
  adopted = 0;
  verified = 0;
  partials_cleaned = 0;
}

-- A call of the target.
abbrev pub on_result : {T A : Type 0} → World T → Result Exn A × T → Result Exn A × World T
on_result w (r, t) = (r, record w { target = t })

unfoldable pub on_target : {T A : Type 0} → Exec T Exn A → Exec (World T) Exn A
on_target m w = on_result w (m w.target)

module _ {T B : Type 0} (api : TargetApi T B) where
  -- The checks of _load_target on the row that it reads.
  unfoldable pub check_row : Option (Text × Text) → Exec (World T) Exn Text
  check_row none = raise (failure "target_identity_mismatch" 4)
  check_row (some (adapter_kind, marker_sha256)) =
      if not (text_eq adapter_kind api.adapter_kind)
      then raise (failure "target_identity_mismatch" 4)
      else pure marker_sha256

  -- _load_target
  unfoldable pub load_target : Text → Exec (World T) Exn Text
  unfolding check_row require_current target_row
  load_target target_id = do require_current; row ← target_row target_id; check_row row

  -- The body of the transaction in init_target.
  unfoldable pub insert_or_compare : Text → Text → Option (Text × Text) → Exec (World T) Exn Unit
  unfolding insert_target
  insert_or_compare target_id marker_sha256 none =
      insert_target target_id api.adapter_kind marker_sha256
  insert_or_compare target_id marker_sha256 (some (adapter_kind, marker)) =
      if text_eq adapter_kind api.adapter_kind && text_eq marker marker_sha256
      then pure tt
      else raise (failure "target_identity_mismatch" 4)

  -- except ReplicationError: rollback, raise
  -- except Exception: rollback, raise database_integrity_failure
  unfoldable pub abort_any : {A : Type 0} → Exn → Exec (World T) Exn A
  abort_any (replication e) w = (err (replication e), rollback w)
  abort_any sqlite_error w = (err (failure "database_integrity_failure" 7), rollback w)
  abort_any (foreign n) w = (err (failure "database_integrity_failure" 7), rollback w)

  -- What init_target does by the row that it finds first.
  unfoldable pub init_found : Text → Option (Text × Text) → Exec (World T) Exn RunSummary
  unfolding on_target insert_or_compare abort_any begin commit target_row
  init_found target_id (some (adapter_kind, marker_sha256)) =
      if not (text_eq adapter_kind api.adapter_kind)
      then raise (failure "target_identity_mismatch" 4)
      else (do on_target (api.bind target_id marker_sha256); pure no_work)
  init_found target_id none = do
    marker_sha256 ← on_target (api.initialize target_id)
    catch
        (do
          begin
          row ← target_row target_id
          insert_or_compare target_id marker_sha256 row
          commit)
        abort_any
    on_target (api.bind target_id marker_sha256)
    pure no_work

  unfoldable pub init_target : Text → Exec (World T) Exn RunSummary
  unfolding connect require_current target_row init_found
  init_target target_id = do
    lift (validate_target_id target_id)
    connect
    finally (do require_current; existing ← target_row target_id; init_found target_id existing)
        rollback
