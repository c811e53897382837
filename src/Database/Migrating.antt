-- ===== src/Database/Migrating.antt =====
-- `migrate` of components/replication-worker/packages/database/migrations.py, over the versions and
-- names of MIGRATIONS. What the SQL of a migration does to the rest of the database is a parameter:
-- `apply version` gives the database after its statements, or `none` where one of them fails.
pub mod Rising
pub mod Histories
pub mod Current
use edge_evidence_showcase.Prelude.{
  ℕ, Bool, true, false, not, ◌&&◌, ◌||◌, Option, none, some, List, [], ◌∷◌, ◌++◌, Text, text_eq,
  any, ltb, ◌==◌, compare, if◌then◌else◌,
}
use edge_evidence_showcase.Prelude.Sorting.{sorted}
use edge_evidence_showcase.Exec.{Result, ok, err}
use edge_evidence_showcase.Database.Statements.{migrations}

-- The rows of schema_migrations, and the rest of the database.
pub record Store (S : Type 0) : Type 0 where
  pub schema_migrations : List (ℕ × Text)
  pub rest : S

-- MigrationError, for a version that is newer than the code or a name that differs, and what SQLite
-- raises.
pub data MigrationExn : Type 0 where
  newer drifted : ℕ → MigrationExn
  refused : MigrationExn

-- MigrationResult without its path
pub record MigrationResult : Type 0 where
  pub applied_versions : List ℕ
  pub current_version : ℕ

unfoldable pub name_of : ℕ → List (ℕ × Text) → Option Text
name_of version [] = none
name_of version (m ∷ ms) = if m.0 == version then some m.1 else name_of version ms

-- The loop that rejects a newer version and a drifted name.
unfoldable pub check_recorded : List (ℕ × Text) → Result MigrationExn Unit
unfolding name_of
check_recorded [] = ok tt
check_recorded (r ∷ rs) =
    let rest = check_recorded rs in
    elim (name_of r.0 migrations) [
      | none ↦ err (newer r.0)
      | some name ↦ if text_eq name r.1 then rest else err (drifted r.0)
    ]

unfoldable pub has_version : ℕ → List (ℕ × Text) → Bool
has_version version = any (λ m. m.0 == version)

-- CHECK (version > 0), PRIMARY KEY and UNIQUE of schema_migrations
unfoldable pub admits_migration : ℕ × Text → List (ℕ × Text) → Bool
unfolding has_version
admits_migration m rows =
    ltb 0 m.0 && not (has_version m.0 rows) && not (any (λ n. text_eq n.1 m.1) rows)

-- code_max
unfoldable pub last_version : List (ℕ × Text) → ℕ
last_version [] = 0
last_version (m ∷ ms) = let n = last_version ms in if ltb n m.0 then m.0 else n

module _ {S : Type 0} (apply : ℕ → S → Option S) where
  -- The statements of one migration, and the INSERT of its row.
  unfoldable pub apply_one : ℕ × Text → Store S → Option (Store S)
  unfolding admits_migration
  apply_one m store = elim (apply m.0 store.rest) [
    | none ↦ none
    | some after ↦
        if admits_migration m store.schema_migrations
        then some (record { schema_migrations = store.schema_migrations ++ m ∷ []; rest = after })
        else none
  ]

  -- The loop over MIGRATIONS, with the versions applied.
  unfoldable pub apply_missing :
      List (ℕ × Text) → List (ℕ × Text) → Store S → List ℕ → Option (Store S × List ℕ)
  unfolding has_version apply_one
  apply_missing existing [] store applied = some (store, applied)
  apply_missing existing (m ∷ ms) store applied =
      if has_version m.0 existing
      then apply_missing existing ms store applied
      else elim (apply_one m store) [
        | none ↦ none
        | some store' ↦ apply_missing existing ms store' (applied ++ m.0 ∷ [])
      ]

  -- migrate: an exception rolls the transaction back
  unfoldable pub migrate : Store S → Result MigrationExn MigrationResult × Store S
  unfolding check_recorded apply_missing last_version
  migrate store = elim (check_recorded (sorted (λ m n. compare m.0 n.0) store.schema_migrations)) [
    | err x ↦ (err x, store)
    | ok _ ↦ elim (apply_missing store.schema_migrations migrations store []) [
      | none ↦ (err refused, store)
      | some (store', applied) ↦ (
        ok (record { applied_versions = applied; current_version = last_version migrations }),
        store',
      )
    ]
  ]
