-- ===== src/Database/Migrating/Current.antt =====
-- The recorded history after `migrate` of packages/database/migrations.py.
use edge_evidence_showcase.Prelude.{
  ℕ, ◌≡◌, ◌≢◌, refl, sym, true, false, Bool-cases, Option, none, some, Option-cases, List, [], ◌∷◌,
  ◌++◌, Text, In, Each, inl, inr, ◌⊎◌, arith,
}
use edge_evidence_showcase.Prelude.Sorting.{sorted, sorted-In}
use edge_evidence_showcase.Exec.{Result, ok, err}
use edge_evidence_showcase.Exec.Triple.{Post}
use edge_evidence_showcase.Database.Statements.{migrations}
use edge_evidence_showcase.Database.Migrating.{
  Store, MigrationExn, check_recorded, has_version, admits_migration, last_version, apply_one,
  apply_missing, migrate,
}
use edge_evidence_showcase.Database.Migrating.Rising.{
  by_version, Distinct, sorted-Rising, Rising-same,
}
use edge_evidence_showcase.Database.Migrating.Histories.{
  check_recorded-In, has_version-In, has_version-fresh, Distinct-last, In-left, In-last, split_last,
  same_version, migrations-Rising,
}
use edge_evidence_showcase.Database.Migrating.{refused}
use edge_evidence_showcase.Database.Statements.{is_current}
use edge_evidence_showcase.Authority.History.{is_current_iff}

module _ {S : Type 0} (apply : ℕ → S → Option S) where
  apply_one-appends :
      (m : ℕ × Text) (s t : Store S)
      → apply_one apply m s ≡ some t
      → (t.schema_migrations ≡ s.schema_migrations ++ m ∷ [])
        × (has_version m.0 s.schema_migrations ≡ false)
  unfolding apply_one admits_migration
  apply_one-appends m s t h = elim (Option-cases (apply m.0 s.rest)) [
    | inl e ↦ absurd (ground arith)
    | inr (a, e) ↦ (ground arith, ground arith)
  ]

  -- What the loop over `todo` has done to the recorded rows.
  abbrev Applied : List (ℕ × Text) → List (ℕ × Text) → Store S → Store S → Type 0
  Applied existing todo s t =
      (Distinct s.schema_migrations → Distinct t.schema_migrations)
      × ((x : ℕ × Text) → In x s.schema_migrations → In x t.schema_migrations)
      × ((x : ℕ × Text) → In x todo → In x t.schema_migrations ⊎ (has_version x.0 existing ≡ true))
      × ((x : ℕ × Text) → In x t.schema_migrations → In x s.schema_migrations ⊎ In x todo)

  skip_one :
      (existing : List (ℕ × Text)) (m : ℕ × Text) (ms : List (ℕ × Text)) (s t : Store S)
      → has_version m.0 existing ≡ true
      → Applied existing ms s t
      → Applied existing (m ∷ ms) s t
  skip_one existing m ms s t e (d, f, g, k) = (d, f, cover, λ x i. later (k x i))
    where
      cover :
          (x : ℕ × Text)
          → In x (m ∷ ms)
          → In x t.schema_migrations ⊎ (has_version x.0 existing ≡ true)
      cover x (inl q) = inr (rw q e)
      cover x (inr i) = g x i

      later :
          {x : ℕ × Text}
          → In x s.schema_migrations ⊎ In x ms
          → In x s.schema_migrations ⊎ In x (m ∷ ms)
      later (inl i) = inl i
      later (inr i) = inr (inr i)

  add_one :
      (existing : List (ℕ × Text)) (m : ℕ × Text) (ms : List (ℕ × Text)) (s u t : Store S)
      → apply_one apply m s ≡ some u
      → Applied existing ms u t
      → Applied existing (m ∷ ms) s t
  add_one existing m ms s u t e (d, f, g, k) = (
    λ h. d (rw rows (Distinct-last s.schema_migrations m fresh h)),
    λ x i. f x (rw rows (In-left x s.schema_migrations (m ∷ []) i)),
    cover,
    λ x i. from x (k x i),
  )
    where
      rows : u.schema_migrations ≡ s.schema_migrations ++ m ∷ []
      rows = (apply_one-appends m s u e).0

      fresh : Each (λ n. n.0 ≢ m.0) s.schema_migrations
      fresh = has_version-fresh m.0 s.schema_migrations (apply_one-appends m s u e).1

      cover :
          (x : ℕ × Text)
          → In x (m ∷ ms)
          → In x t.schema_migrations ⊎ (has_version x.0 existing ≡ true)
      cover x (inl q) = inl (f x (rw (rows, q) (In-last m s.schema_migrations)))
      cover x (inr i) = g x i

      from :
          (x : ℕ × Text)
          → In x u.schema_migrations ⊎ In x ms
          → In x s.schema_migrations ⊎ In x (m ∷ ms)
      from x (inr i) = inr (inr i)
      from x (inl i) = split_last x s.schema_migrations m ms (rw rows at i)

  apply_missing-Applied :
      (existing todo : List (ℕ × Text)) (s t : Store S) (applied applied' : List ℕ)
      → apply_missing apply existing todo s applied ≡ some (t, applied')
      → Applied existing todo s t
  unfolding apply_missing
  apply_missing-Applied existing [] s t applied applied' h =
      let e : s ≡ t = ground arith in rw (sym e) (λ d. d, λ x i. i, λ x i. absurd i, λ x i. inl i)
  apply_missing-Applied existing (m ∷ ms) s t applied applied' h =
      elim (Bool-cases (has_version m.0 existing)) [
        | inl e ↦
            skip_one existing m ms s t e
              (apply_missing-Applied existing ms s t applied applied' (rw e at h))
        | inr e ↦ elim (Option-cases (apply_one apply m s)) [
          | inl q ↦ absurd (ground arith)
          | inr (u, q) ↦ add_one existing m ms s u t q (
              apply_missing-Applied existing ms u t (applied ++ m.0 ∷ []) applied' (rw (e, q) at h))
        ]
      ]

  check_cases : (r : Result MigrationExn Unit) → (r ≡ ok tt) ⊎ ((x : MigrationExn) × (r ≡ err x))
  check_cases (ok tt) = inl refl
  check_cases (err x) = inr (x, refl)

  migrate_rejected :
      (s : Store S) (x : MigrationExn)
      → check_recorded (sorted by_version s.schema_migrations) ≡ err x
      → migrate apply s ≡ (err x, s)
  unfolding migrate
  migrate_rejected s x e = rw (e, migrate)

  migrate-refused :
      (s : Store S)
      → check_recorded (sorted by_version s.schema_migrations) ≡ ok tt
      → apply_missing apply s.schema_migrations migrations s [] ≡ none
      → migrate apply s ≡ (err refused, s)
  unfolding migrate
  migrate-refused s e q = rw (e, q, migrate)

  migrate_done :
      (s t : Store S) (applied : List ℕ)
      → check_recorded (sorted by_version s.schema_migrations) ≡ ok tt
      → apply_missing apply s.schema_migrations migrations s [] ≡ some (t, applied)
      → migrate apply s
        ≡ (ok (record { applied_versions = applied; current_version = last_version migrations }), t)
  unfolding migrate
  migrate_done s t applied e q = rw (e, q, migrate)

  whole :
      (s t : Store S)
      → Distinct s.schema_migrations
      → check_recorded (sorted by_version s.schema_migrations) ≡ ok tt
      → Applied s.schema_migrations migrations s t
      → sorted by_version t.schema_migrations ≡ migrations
  whole s t d e (keeps, f, g, k) =
      Rising-same _ migrations (sorted-Rising t.schema_migrations (keeps d)) migrations-Rising
        (λ x i. known x (k x ((sorted-In by_version x t.schema_migrations).0 i)))
        (λ x i. (sorted-In by_version x t.schema_migrations).1 (present x i (g x i)))
    where
      recorded : (x : ℕ × Text) → In x s.schema_migrations → In x migrations
      recorded x i =
          check_recorded-In (sorted by_version s.schema_migrations) e x
            ((sorted-In by_version x s.schema_migrations).1 i)

      known : (x : ℕ × Text) → In x s.schema_migrations ⊎ In x migrations → In x migrations
      known x (inl i) = recorded x i
      known x (inr i) = i

      present :
          (x : ℕ × Text)
          → In x migrations
          → In x t.schema_migrations ⊎ (has_version x.0 s.schema_migrations ≡ true)
          → In x t.schema_migrations
      present x i (inl j) = j
      present x i (inr h) =
          let (r, j, q) = has_version-In x.0 s.schema_migrations h in
          f x (rw (sym (same_version r x migrations migrations-Rising (recorded r j) i q)) j)

  -- If no version is recorded twice, then migrate either returns, and then the recorded history in
  -- the order of its versions is exactly that of migrations 1 to 10, so that the tests of
  -- require_current pass, and 10 is the current version; or it raises, and then the database is as
  -- it was.
  pub migrate-is_current :
      (s : Store S)
      → Distinct s.schema_migrations
      → Post
          (λ result t.
            (sorted by_version t.schema_migrations ≡ migrations)
            × (is_current (sorted by_version t.schema_migrations) ≡ true)
            × (result.current_version ≡ 10))
          (λ _ t. t ≡ s)
          (migrate apply s)
  unfolding last_version
  migrate-is_current s d =
      elim (check_cases (check_recorded (sorted by_version s.schema_migrations))) [
        | inr (x, e) ↦ rw (migrate_rejected s x e) refl
        | inl e ↦ elim (Option-cases (apply_missing apply s.schema_migrations migrations s [])) [
          | inl q ↦ rw (migrate-refused s e q) refl
          | inr ((t, applied), q) ↦
              let same =
                whole s t d e
                  (apply_missing-Applied s.schema_migrations migrations s t [] applied q) in
              rw (migrate_done s t applied e q) (same, (is_current_iff _).1 same, refl)
        ]
      ]
