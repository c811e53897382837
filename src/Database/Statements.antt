-- ===== src/Database/Statements.antt =====
-- The SQL of core/authority.py (components/replication-worker/packages/replication): what its
-- statements select, and what they set.
use edge_evidence_showcase.Prelude.{
  ℕ, ◌+◌, Bool, true, false, ◌&&◌, Option, none, some, List, [], ◌∷◌, Text, text, text_eq,
  text_compare, Ordering, compare, take, any, ◌==◌, if◌then◌else◌,
}
use edge_evidence_showcase.Prelude.Sorting.{sorted}
use edge_evidence_showcase.Contracts.Objects.{ReplicaObject, object_eq}
use edge_evidence_showcase.Database.{TargetRow, ReplicaState, pending, verified, ReplicaRow, Tables}

-- The versions and names of MIGRATIONS.
abbrev pub migrations : List (ℕ × Text)
migrations =
    (1, text "repository_foundation")
    ∷ (2, text "ledger_and_outbox")
    ∷ (3, text "crash_reconciliation")
    ∷ (4, text "derived_processing")
    ∷ (5, text "mobile_recording_import")
    ∷ (6, text "rtsp_capture")
    ∷ (7, text "multi_source_occurrence_assertions")
    ∷ (8, text "enforce_occurrence_assertion_cycle")
    ∷ (9, text "verified_replication")
    ∷ (10, text "provider_neutral_replication_targets")
    ∷ []

-- CURRENT_REPLICATION_MIGRATION
abbrev pub current_migration : ℕ × Text
current_migration = (10, text "provider_neutral_replication_targets")

unfoldable pub migration_eq : ℕ × Text → ℕ × Text → Bool
migration_eq m n = m.0 == n.0 && text_eq m.1 n.1

unfoldable pub history_eq : List (ℕ × Text) → List (ℕ × Text) → Bool
unfolding migration_eq
history_eq [] [] = true
history_eq (m ∷ ms) (n ∷ ns) = migration_eq m n && history_eq ms ns
history_eq _ _ = false

unfoldable pub last_is_current : List (ℕ × Text) → Bool
unfolding migration_eq
last_is_current [] = false
last_is_current (m ∷ []) = migration_eq m current_migration
last_is_current (m ∷ n ∷ ms) = last_is_current (n ∷ ms)

-- SELECT version, name FROM schema_migrations ORDER BY version
unfoldable pub recorded_migrations : Tables → List (ℕ × Text)
recorded_migrations db = sorted (λ m n. compare m.0 n.0) db.schema_migrations

-- The tests of require_current.
unfoldable pub is_current : List (ℕ × Text) → Bool
unfolding history_eq last_is_current migration_eq
is_current recorded =
    history_eq recorded migrations
    && any (λ m. migration_eq m current_migration) recorded
    && last_is_current recorded

-- `ORDER BY object_kind, relative_uri`
unfoldable pub row_compare : ReplicaRow → ReplicaRow → Ordering
row_compare r s = elim (text_compare r.object_kind s.object_kind) [
  | Ordering.lt ↦ Ordering.lt
  | Ordering.eq ↦ text_compare r.relative_uri s.relative_uri
  | Ordering.gt ↦ Ordering.gt
]

unfoldable pub state_eq : ReplicaState → ReplicaState → Bool
state_eq pending pending = true
state_eq verified verified = true
state_eq _ _ = false

-- WHERE target_id=? AND state=?
unfoldable pub in_state : Text → ReplicaState → ReplicaRow → Bool
unfolding state_eq
in_state target_id state r = text_eq r.target_id target_id && state_eq r.state state

-- WHERE target_id=? AND … AND expected_sha256=? AND state='PENDING'
unfoldable pub is_pending_row : ReplicaObject → ReplicaRow → Bool
unfolding state_eq
is_pending_row obj r = object_eq r.object obj && state_eq r.state pending

-- SET attempt_count=attempt_count+1, last_error=NULL
unfoldable pub set_attempt : ReplicaRow → ReplicaRow
set_attempt r = record r { attempt_count = r.attempt_count + 1; last_error = none }

-- SET last_error=?, with `str(finding)[:96]`
unfoldable pub set_failure : Text → ReplicaRow → ReplicaRow
set_failure finding r = record r { last_error = some (take 96 finding) }

-- SET state='VERIFIED', last_error=NULL, verified_at=strftime(…, 'now')
unfoldable pub set_verified : ℕ → ReplicaRow → ReplicaRow
set_verified now r = record r { state = verified; last_error = none; verified_at = some now }

unfoldable pub find_row : (ReplicaRow → Bool) → List ReplicaRow → Option ReplicaRow
find_row p [] = none
find_row p (r ∷ rs) = if p r then some r else find_row p rs

-- SELECT … FROM replica_objects WHERE target_id=? AND object_kind=? AND relative_uri=?
unfoldable pub stored_row : Text → ReplicaObject → Tables → Option ReplicaRow
unfolding find_row
stored_row target_id obj db =
    find_row
      (λ r.
        text_eq r.target_id target_id
        && text_eq r.object_kind obj.object_kind
        && text_eq r.relative_uri obj.relative_uri)
      db.replica_objects

unfoldable pub find_target : Text → List TargetRow → Option (Text × Text)
find_target target_id [] = none
find_target target_id (t ∷ ts) =
    if text_eq t.target_id target_id
    then some (t.adapter_kind, t.marker_sha256)
    else find_target target_id ts

-- A row as register_discovered inserts it.
unfoldable pub pending_row : Text → ReplicaObject → ℕ → ReplicaRow
pending_row target_id obj now = record {
  object = record obj { target_id = target_id };
  state = pending;
  attempt_count = 0;
  last_error = none;
  created_at = now;
  verified_at = none;
}

abbrev pub with_unit : Option Tables → Option (Tables × Unit {0})
with_unit none = none
with_unit (some db) = some (db, tt)
