-- ===== src/Database/Schema/Updates.antt =====
-- What a successful UPDATE of replica_objects has done, row by row.
use edge_evidence_showcase.Prelude.{
  ℕ, suc, ◌≡◌, refl, ap, ◌∙◌, Bool, true, false, ◌⊎◌, inl, inr, none, some, Option-cases,
  Bool-cases, List, [], ◌∷◌, arith,
}
use edge_evidence_showcase.Database.{ReplicaRow, Tables}
use edge_evidence_showcase.Database.Schema.{
  guard_update, row_check, update_rows, update_replica_rows,
}

module _ (where_row : ReplicaRow → Bool) (set : ReplicaRow → ReplicaRow) where
  -- The row is left as it was, or it matches and its new version has passed trigger and CHECKs.
  abbrev pub Updated : ReplicaRow → ReplicaRow → Type 0
  Updated r s =
      ((where_row r ≡ false) × (s ≡ r))
      ⊎ ((where_row r ≡ true)
          × (s ≡ set r)
          × (guard_update r (set r) ≡ true)
          × (row_check (set r) ≡ true))

  -- One row of the result for each row of the table.
  abbrev pub AllUpdated : List ReplicaRow → List ReplicaRow → Type 0
  AllUpdated [] [] = Unit
  AllUpdated (r ∷ rs) (s ∷ ss) = Updated r s × AllUpdated rs ss
  AllUpdated _ _ = ⊥

  update_one :
      (r : ReplicaRow) (rs qs ss : List ReplicaRow) (m n : ℕ)
      → update_rows where_row set rs ≡ some (qs, m)
      → update_rows where_row set (r ∷ rs) ≡ some (ss, n)
      → (s : ReplicaRow) × (ss ≡ s ∷ qs) × Updated r s
  unfolding update_rows
  update_one r rs qs ss m n e h = elim (Bool-cases (where_row r)) [
    | inl t ↦ (set r, ground arith, inr (t, refl, ground arith, ground arith))
    | inr f ↦ (r, ground arith, inl (f, refl))
  ]

  update_fails :
      (r : ReplicaRow) (rs : List ReplicaRow)
      → update_rows where_row set rs ≡ none
      → update_rows where_row set (r ∷ rs) ≡ none
  unfolding update_rows
  update_fails r rs e = rw (e, update_rows)

  update_nil :
      (ss : List ReplicaRow) (n : ℕ) → update_rows where_row set [] ≡ some (ss, n) → ss ≡ []
  unfolding update_rows
  update_nil ss n h = ground arith

  pub update_rows-AllUpdated :
      (rs ss : List ReplicaRow) (n : ℕ)
      → update_rows where_row set rs ≡ some (ss, n)
      → AllUpdated rs ss
  update_rows-AllUpdated [] ss n h = rw (update_nil ss n h) tt
  update_rows-AllUpdated (r ∷ rs) ss n h = elim (Option-cases (update_rows where_row set rs)) [
    | inl e ↦ cc (update_fails r rs e)
    | inr ((qs, m), e) ↦
        let (s, whole, one) = update_one r rs qs ss m n e h in
        rw whole (one, update_rows-AllUpdated rs qs m e)
  ]

  tables_fail :
      (db : Tables)
      → update_rows where_row set db.replica_objects ≡ none
      → update_replica_rows where_row set db ≡ none
  unfolding update_replica_rows
  tables_fail db e = rw (e, update_replica_rows)

  tables_fine :
      (db db' : Tables) (ss : List ReplicaRow) (m n : ℕ)
      → update_rows where_row set db.replica_objects ≡ some (ss, m)
      → update_replica_rows where_row set db ≡ some (db', n)
      → (db'.replica_objects ≡ ss) × (db'.replica_targets ≡ db.replica_targets)
  unfolding update_replica_rows
  tables_fine db db' ss m n e h = ground arith

  pub update_replica_rows-AllUpdated :
      (db db' : Tables) (n : ℕ)
      → update_replica_rows where_row set db ≡ some (db', n)
      → AllUpdated db.replica_objects db'.replica_objects
        × (db'.replica_targets ≡ db.replica_targets)
  update_replica_rows-AllUpdated db db' n h =
      elim (Option-cases (update_rows where_row set db.replica_objects)) [
        | inl e ↦ cc (tables_fail db e)
        | inr ((ss, m), e) ↦
            let (rows, targets) = tables_fine db db' ss m n e h in
            (rw rows (update_rows-AllUpdated db.replica_objects ss m e), targets)
      ]

module _ (where_row : ReplicaRow → Bool) (set : ReplicaRow → ReplicaRow) where
  -- Exactly one row has matched. It has its new version, and every other row is as it was.
  abbrev pub OneUpdated : List ReplicaRow → List ReplicaRow → Type 0
  OneUpdated [] ss = ⊥
  OneUpdated (r ∷ rs) [] = ⊥
  OneUpdated (r ∷ rs) (s ∷ ss) =
      ((where_row r ≡ true) × (s ≡ set r) × (ss ≡ rs))
      ⊎ ((where_row r ≡ false) × (s ≡ r) × OneUpdated rs ss)

  step_matched :
      (r : ReplicaRow) (rs qs ss : List ReplicaRow) (m n : ℕ)
      → where_row r ≡ true
      → update_rows where_row set rs ≡ some (qs, m)
      → update_rows where_row set (r ∷ rs) ≡ some (ss, n)
      → (ss ≡ set r ∷ qs) × (n ≡ suc m)
  unfolding update_rows
  step_matched r rs qs ss m n t e h = ground arith

  step_unmatched :
      (r : ReplicaRow) (rs qs ss : List ReplicaRow) (m n : ℕ)
      → where_row r ≡ false
      → update_rows where_row set rs ≡ some (qs, m)
      → update_rows where_row set (r ∷ rs) ≡ some (ss, n)
      → (ss ≡ r ∷ qs) × (n ≡ m)
  unfolding update_rows
  step_unmatched r rs qs ss m n t e h = ground arith

  -- An UPDATE that matches no row changes none.
  update_zero :
      (rs ss : List ReplicaRow) (n : ℕ)
      → update_rows where_row set rs ≡ some (ss, n)
      → n ≡ 0
      → ss ≡ rs
  update_zero [] ss n h z = update_nil where_row set ss n h
  update_zero (r ∷ rs) ss n h z = elim (Option-cases (update_rows where_row set rs)) [
    | inl e ↦ cc (update_fails where_row set r rs e)
    | inr ((qs, m), e) ↦ elim (Bool-cases (where_row r)) [
      | inl t ↦ absurd (omega (arith, (step_matched r rs qs ss m n t e h).1))
      | inr f ↦
          let (whole, count) = step_unmatched r rs qs ss m n f e h in
          whole ∙ ap (λ xs. r ∷ xs) (update_zero rs qs m e (omega arith))
    ]
  ]

  update_rows-OneUpdated :
      (rs ss : List ReplicaRow) (n : ℕ)
      → update_rows where_row set rs ≡ some (ss, n)
      → n ≡ 1
      → OneUpdated rs ss
  update_rows-OneUpdated [] ss n h z = unfold update_rows in ground arith
  update_rows-OneUpdated (r ∷ rs) ss n h z = elim (Option-cases (update_rows where_row set rs)) [
    | inl e ↦ cc (update_fails where_row set r rs e)
    | inr ((qs, m), e) ↦ elim (Bool-cases (where_row r)) [
      | inl t ↦
          let (whole, count) = step_matched r rs qs ss m n t e h in
          rw whole (inl (t, refl, update_zero rs qs m e (omega arith)))
      | inr f ↦
          let (whole, count) = step_unmatched r rs qs ss m n f e h in
          rw whole (inr (f, refl, update_rows-OneUpdated rs qs m e (omega arith)))
    ]
  ]

  tables_count :
      (db db' : Tables) (ss : List ReplicaRow) (m n : ℕ)
      → update_rows where_row set db.replica_objects ≡ some (ss, m)
      → update_replica_rows where_row set db ≡ some (db', n)
      → (db'.replica_objects ≡ ss) × (m ≡ n)
  unfolding update_replica_rows
  tables_count db db' ss m n e h = ground arith

  pub update_replica_rows-OneUpdated :
      (db db' : Tables)
      → update_replica_rows where_row set db ≡ some (db', 1)
      → OneUpdated db.replica_objects db'.replica_objects
  update_replica_rows-OneUpdated db db' h =
      elim (Option-cases (update_rows where_row set db.replica_objects)) [
        | inl e ↦ cc (tables_fail where_row set db e)
        | inr ((ss, m), e) ↦
            let (rows, count) = tables_count db db' ss m 1 e h in
            rw rows (update_rows-OneUpdated db.replica_objects ss m e count)
      ]
