-- ===== src/Tests/Migrating.antt =====
-- Migrating a database that stopped at version 2.
use edge_evidence_showcase.Prelude.{ℕ, ◌≡◌, true, some, List, [], ◌∷◌, text, arith}
use edge_evidence_showcase.Prelude.Sorting.{sorted}
use edge_evidence_showcase.Exec.Triple.{Post}
use edge_evidence_showcase.Database.Statements.{migrations, is_current}
use edge_evidence_showcase.Database.Migrating.{Store, migrate}
use edge_evidence_showcase.Database.Migrating.Rising.{by_version}
use edge_evidence_showcase.Database.Migrating.Current.{migrate-is_current}

abbrev old_store : Store (List ℕ)
old_store = record {
  schema_migrations = (1, text "repository_foundation") ∷ (2, text "ledger_and_outbox") ∷ [];
  rest = [];
}

migrate-is_current_example :
    Post
      (λ result t.
        (sorted by_version t.schema_migrations ≡ migrations)
        × (is_current (sorted by_version t.schema_migrations) ≡ true)
        × (result.current_version ≡ 10))
      (λ _ t. t ≡ old_store)
      (migrate (λ version done. some (version ∷ done)) old_store)
migrate-is_current_example =
    migrate-is_current (λ version done. some (version ∷ done)) old_store
      ((λ e. absurd (omega arith), tt), (tt, tt))
