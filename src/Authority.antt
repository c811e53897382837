-- ===== src/Authority.antt =====
-- components/replication-worker/packages/replication/core/authority.py: the replication authority
-- over one database connection.
pub mod Changes
pub mod History
pub mod Lifecycle
pub mod Registration
pub mod Selection
use edge_evidence_showcase.Prelude.{
  ℕ, ◌+◌, Bool, ◌&&◌, Option, none, some, List, [], ◌∷◌, Text, String, text_eq, keep, ◌==◌,
  if◌then◌else◌,
}
use edge_evidence_showcase.Prelude.Sorting.{sorted}
use edge_evidence_showcase.Exec.{
  Result, Exec, ok, pure, raise, lift, gets, catch, ◌>>=◌, ◌>>◌, and_then, collect,
}
use edge_evidence_showcase.Contracts.{Exn, replication, sqlite_error, foreign, failure}
use edge_evidence_showcase.Contracts.Objects.{ReplicaObject, replica_object}
use edge_evidence_showcase.Database.{ReplicaState, pending, verified, ReplicaRow}
use edge_evidence_showcase.Database.Schema.{
  insert_target_row, insert_replica_row, update_replica_rows,
}
use edge_evidence_showcase.Database.Statements.{
  recorded_migrations, is_current, find_target, with_unit, stored_row, pending_row, in_state,
  row_compare, is_pending_row, set_attempt, set_failure, set_verified,
}
use edge_evidence_showcase.Database.Session.{World, query, execute, transaction}

-- ReplicaObject(…) for each row, in order
unfoldable pub objects_of : Text → List ReplicaRow → Result Exn (List ReplicaObject)
objects_of target_id = collect λ r.
    and_then
      (replica_object target_id r.object_kind r.relative_uri r.expected_byte_size r.expected_sha256)
      (λ o. ok (o ∷ []))

module _ {T : Type 0} where
  -- The name that an exception gets: `except sqlite3.Error: raise ReplicationError(finding, code=7)`.
  unfoldable pub renamed : {A : Type 0} → String → Exn → Exec (World T) Exn A
  renamed finding sqlite_error = raise (failure finding 7)
  renamed finding (replication e) = raise (replication e)
  renamed finding (foreign n) = raise (foreign n)

  unfoldable pub rename_error : {A : Type 0} → String → Exec (World T) Exn A → Exec (World T) Exn A
  unfolding renamed
  rename_error finding m = catch m (renamed finding)

  -- connect: opening, and PRAGMA foreign_keys
  unfoldable pub connect : Exec (World T) Exn Unit
  unfolding rename_error
  connect = rename_error "database_integrity_failure" (query (λ _. tt) >> query (λ _. tt))

  unfoldable pub require_current : Exec (World T) Exn Unit
  unfolding rename_error is_current recorded_migrations
  require_current = do
    recorded ← rename_error "migration_mismatch" (query recorded_migrations)
    if is_current recorded then pure tt else raise (failure "migration_mismatch" 7)

  unfoldable pub target_row : Text → Exec (World T) Exn (Option (Text × Text))
  unfolding rename_error find_target
  target_row target_id =
      rename_error "database_integrity_failure"
        (query (λ db. find_target target_id db.replica_targets))

  unfoldable pub insert_target : Text → Text → Text → Exec (World T) Exn Unit
  unfolding rename_error require_current
  insert_target target_id adapter_kind marker_sha256 = do
    require_current
    now ← gets (λ w. w.clock)
    rename_error "database_integrity_failure" (
        execute (λ db. with_unit (
          insert_target_row
            (record {
              target_id = target_id;
              adapter_kind = adapter_kind;
              marker_sha256 = marker_sha256;
              created_at = now;
            })
            db)))

  -- The body of the loop of register_discovered, by the row that it finds; it returns `inserted`.
  unfoldable pub register_one : Text → ReplicaObject → ℕ → Option ReplicaRow → Exec (World T) Exn ℕ
  unfolding pending_row
  register_one target_id obj inserted none = do
    now ← gets (λ w. w.clock)
    execute (λ db. with_unit (insert_replica_row (pending_row target_id obj now) db))
    pure (inserted + 1)
  register_one target_id obj inserted (some r) =
      if r.expected_byte_size == obj.expected_byte_size
        && text_eq r.expected_sha256 obj.expected_sha256
      then pure inserted
      else raise (failure "replica_authority_conflict" 7)

  unfoldable pub register_loop : Text → List ReplicaObject → ℕ → Exec (World T) Exn ℕ
  unfolding stored_row register_one
  register_loop target_id [] inserted = pure inserted
  register_loop target_id (obj ∷ objects) inserted = do
    row ← query (stored_row target_id obj)
    inserted' ← register_one target_id obj inserted row
    register_loop target_id objects inserted'

  unfoldable pub register_discovered : Text → List ReplicaObject → Exec (World T) Exn ℕ
  unfolding require_current transaction register_loop
  register_discovered target_id objects = do
    require_current
    transaction (register_loop target_id objects 0)

  unfoldable pub objects_for_state : Text → ReplicaState → Exec (World T) Exn (List ReplicaObject)
  unfolding require_current rename_error in_state row_compare
  objects_for_state target_id state = do
    require_current
    rows ←
        rename_error "database_integrity_failure"
          (query (λ db. sorted row_compare (keep (in_state target_id state) db.replica_objects)))
    lift (objects_of target_id rows)

  unfoldable pub pending_objects : Text → Exec (World T) Exn (List ReplicaObject)
  unfolding objects_for_state
  pending_objects target_id = objects_for_state target_id pending

  unfoldable pub verified_objects : Text → Exec (World T) Exn (List ReplicaObject)
  unfolding objects_for_state
  verified_objects target_id = objects_for_state target_id verified

  -- UPDATE … WHERE … AND state='PENDING', and `if count != 1: raise`
  unfoldable pub update_pending :
      ReplicaObject → (ReplicaRow → ReplicaRow) → Exec (World T) Exn Unit
  unfolding is_pending_row
  update_pending obj set = do
    count ← execute (update_replica_rows (is_pending_row obj) set)
    if count == 1 then pure tt else raise (failure "replica_authority_conflict" 7)

  unfoldable pub record_attempt : ReplicaObject → Exec (World T) Exn Unit
  unfolding transaction update_pending set_attempt
  record_attempt obj = transaction (update_pending obj set_attempt)

  unfoldable pub record_failure : ReplicaObject → Text → Exec (World T) Exn Unit
  unfolding transaction update_pending set_failure
  record_failure obj finding = transaction (update_pending obj (set_failure finding))

  unfoldable pub mark_verified : ReplicaObject → Exec (World T) Exn Unit
  unfolding transaction update_pending set_verified
  mark_verified obj = do
    now ← gets (λ w. w.clock)
    transaction (update_pending obj (set_verified now))
