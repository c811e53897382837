-- ===== src/Database/Schema/Evolution.antt =====
-- How the tables may evolve under the constraints of migration 10
-- (components/replication-worker/packages/database/replication_target_migration_v10.py).
use edge_evidence_showcase.Prelude.{
  ℕ, ◌≤◌, ◌≡◌, refl, ◌∙◌, Option-cases, Bool, true, inl, inr, some, List, [], ◌∷◌, ◌++◌, arith,
}
use edge_evidence_showcase.Contracts.Objects.{object_eq→eq}
use edge_evidence_showcase.Database.{verified, ReplicaRow, Tables}
use edge_evidence_showcase.Database.Schema.{
  guard_update, insert_replica_row, update_rows, update_replica_rows,
}
use edge_evidence_showcase.Database.Schema.Updates.{
  Updated, AllUpdated, update_replica_rows-AllUpdated,
}

-- How one row may come out of a later state of the table.
abbrev pub RowEvolves : ReplicaRow → ReplicaRow → Type 0
RowEvolves r s =
    (s.object ≡ r.object)
    × (s.created_at ≡ r.created_at)
    × (r.attempt_count ≤ s.attempt_count)
    × (r.state ≡ verified → s ≡ r)

abbrev pub RowsEvolve : List ReplicaRow → List ReplicaRow → Type 0
RowsEvolve [] ss = Unit
RowsEvolve (r ∷ rs) [] = ⊥
RowsEvolve (r ∷ rs) (s ∷ ss) = RowEvolves r s × RowsEvolve rs ss

-- The records of finalized files are the same.
abbrev pub SameSources : Tables → Tables → Type 0
SameSources db db' =
    (db'.artifacts ≡ db.artifacts)
    × (db'.capture_occurrence_assertions ≡ db.capture_occurrence_assertions)
    × (db'.recording_imports ≡ db.recording_imports)

abbrev pub Evolves : Tables → Tables → Type 0
Evolves db db' = RowsEvolve db.replica_objects db'.replica_objects × SameSources db db'

RowsEvolve-refl : (rs : List ReplicaRow) → RowsEvolve rs rs
RowsEvolve-refl [] = tt
RowsEvolve-refl (r ∷ rs) = ((refl, refl, omega arith, λ _. refl), RowsEvolve-refl rs)

pub Evolves-refl : (db : Tables) → Evolves db db
Evolves-refl db = (RowsEvolve-refl db.replica_objects, (refl, refl, refl))

RowEvolves-trans : (r s t : ReplicaRow) → RowEvolves r s → RowEvolves s t → RowEvolves r t
RowEvolves-trans r s t (o, c, a, v) (o', c', a', v') =
    (o' ∙ o, c' ∙ c, omega arith, λ h. let same = v h in v' (rw same h) ∙ same)

pub RowsEvolve-trans :
    (rs ss ts : List ReplicaRow) → RowsEvolve rs ss → RowsEvolve ss ts → RowsEvolve rs ts
RowsEvolve-trans [] ss ts h k = tt
RowsEvolve-trans (r ∷ rs) [] ts h k = absurd h
RowsEvolve-trans (r ∷ rs) (s ∷ ss) [] h k = absurd k
RowsEvolve-trans (r ∷ rs) (s ∷ ss) (t ∷ ts) h k =
    (RowEvolves-trans r s t h.0 k.0, RowsEvolve-trans rs ss ts h.1 k.1)

-- The trigger enforces the evolution of the row that it guards.
guard_update-RowEvolves : (r s : ReplicaRow) → guard_update r s ≡ true → RowEvolves r s
unfolding guard_update
guard_update-RowEvolves r s h =
    (ground (arith, object_eq→eq s.object r.object), ground arith, ground arith, λ v. ground arith)

Updated-RowEvolves :
    (where_row : ReplicaRow → Bool) (set : ReplicaRow → ReplicaRow) (r s : ReplicaRow)
    → Updated where_row set r s
    → RowEvolves r s
Updated-RowEvolves where_row set r s (inl (_, e)) = rw e (refl, refl, omega arith, λ _. refl)
Updated-RowEvolves where_row set r s (inr (_, e, g, _)) = rw e (guard_update-RowEvolves r (set r) g)

AllUpdated-RowsEvolve :
    (where_row : ReplicaRow → Bool) (set : ReplicaRow → ReplicaRow) (rs ss : List ReplicaRow)
    → AllUpdated where_row set rs ss
    → RowsEvolve rs ss
AllUpdated-RowsEvolve where_row set [] ss h = tt
AllUpdated-RowsEvolve where_row set (r ∷ rs) [] h = absurd h
AllUpdated-RowsEvolve where_row set (r ∷ rs) (s ∷ ss) h =
    (Updated-RowEvolves where_row set r s h.0, AllUpdated-RowsEvolve where_row set rs ss h.1)

pub SameSources-trans : (a b c : Tables) → SameSources a b → SameSources b c → SameSources a c
SameSources-trans a b c (p, q, r) (p', q', r') = (p' ∙ p, q' ∙ q, r' ∙ r)

update_replica_rows-SameSources :
    (where_row : ReplicaRow → Bool) (set : ReplicaRow → ReplicaRow) (db db' : Tables) (n : ℕ)
    → update_replica_rows where_row set db ≡ some (db', n)
    → SameSources db db'
unfolding update_replica_rows
update_replica_rows-SameSources where_row set db db' n h =
    elim (Option-cases (update_rows where_row set db.replica_objects)) [
      | inl e ↦ absurd (ground arith)
      | inr ((ss, m), e) ↦ (ground arith, ground arith, ground arith)
    ]

-- Whatever an UPDATE selects and sets, if the constraints of migration 10 let it through, then each
-- row keeps its five identity columns and created_at, its attempt_count does not fall, and it is
-- unchanged if it was VERIFIED; no row is gone; and the records of finalized files are the same.
pub update_replica_rows-Evolves :
    (where_row : ReplicaRow → Bool) (set : ReplicaRow → ReplicaRow) (db db' : Tables) (n : ℕ)
    → update_replica_rows where_row set db ≡ some (db', n)
    → Evolves db db'
update_replica_rows-Evolves where_row set db db' n h = (
  AllUpdated-RowsEvolve where_row set db.replica_objects db'.replica_objects
      (update_replica_rows-AllUpdated where_row set db db' n h).0,
  update_replica_rows-SameSources where_row set db db' n h,
)

pub RowsEvolve-append : (rs ss : List ReplicaRow) → RowsEvolve rs (rs ++ ss)
RowsEvolve-append [] ss = tt
RowsEvolve-append (r ∷ rs) ss = ((refl, refl, omega arith, λ _. refl), RowsEvolve-append rs ss)

-- What an INSERT has done.
pub insert_replica_row-appends :
    (r : ReplicaRow) (db db' : Tables)
    → insert_replica_row r db ≡ some db'
    → (db'.replica_objects ≡ db.replica_objects ++ r ∷ [])
      × (db'.replica_targets ≡ db.replica_targets)
unfolding insert_replica_row
insert_replica_row-appends r db db' h = ground arith

pub insert_replica_row-SameSources :
    (r : ReplicaRow) (db db' : Tables) → insert_replica_row r db ≡ some db' → SameSources db db'
unfolding insert_replica_row
insert_replica_row-SameSources r db db' h = (ground arith, ground arith, ground arith)

pub insert_replica_row-Evolves :
    (r : ReplicaRow) (db db' : Tables) → insert_replica_row r db ≡ some db' → Evolves db db'
insert_replica_row-Evolves r db db' h = (
  rw (insert_replica_row-appends r db db' h).0 (RowsEvolve-append db.replica_objects (r ∷ [])),
  insert_replica_row-SameSources r db db' h,
)
