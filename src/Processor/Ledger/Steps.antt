-- ===== src/Processor/Ledger/Steps.antt =====
-- The changes of the ledger under the constraints of migration 4
-- (components/processor-worker/packages/database/migrations.py), and the rows that they leave.
use edge_evidence_showcase.Prelude.{
  ℕ, ◌≡◌, refl, Bool, true, false, not, Option-cases, inl, inr, none, some, List, [], ◌∷◌, ◌++◌,
  ◌⊎◌, Text, text_eq, arith, &&-true, if◌then◌else◌,
}
use edge_evidence_showcase.Processor.Ledger.{
  ArtifactFacts, Artifact, prepared, Job, Lineage, Ledger, find_artifact, find_lineage,
  insert_artifact, job_check, insert_job, insert_lineage, guard_job, completed, complete_jobs,
  complete_job,
}

-- The changes of the ledger that the processor makes.
pub data LedgerStep (db db' : Ledger) : Type 0 where
  adds_artifact : (a : Artifact) → insert_artifact a db ≡ some db' → LedgerStep db db'
  adds_job : (j : Job) → j.state ≡ prepared → insert_job j db ≡ some db' → LedgerStep db db'
  adds_lineage : (l : Lineage) → insert_lineage l db ≡ some db' → LedgerStep db db'
  completes :
      (job_id output : Text) (now : ℕ)
      → complete_job job_id output now db ≡ some db'
      → LedgerStep db db'

-- What is found stays found when rows are appended.
pub find_artifact-append :
    (id : Text) (xs ys : List Artifact) (f : ArtifactFacts)
    → find_artifact id xs ≡ some f
    → find_artifact id (xs ++ ys) ≡ some f
unfolding find_artifact
find_artifact-append id [] ys f h = cc
find_artifact-append id (x ∷ xs) ys f h = ground (arith, find_artifact-append id xs ys f)

pub find_lineage-append :
    (id : Text) (xs ys : List Lineage) (r : Text × Text)
    → find_lineage id xs ≡ some r
    → find_lineage id (xs ++ ys) ≡ some r
unfolding find_lineage
find_lineage-append id [] ys r h = cc
find_lineage-append id (x ∷ xs) ys r h = ground (arith, find_lineage-append id xs ys r)

pub none-some : {A : Type 0} {a : A} → none ≡ some a → ⊥
none-some h = cc

pub some-same : {A : Type 0} {a b : A} → some a ≡ some b → b ≡ a
some-same h = ground arith

pub false-true : false ≡ true → ⊥
false-true h = cc

-- What the update of a job does to one row.
unfoldable pub Moved : Text → Text → ℕ → Ledger → Job → Job → Type 0
Moved job_id output now db j j' =
    (j' ≡ j)
    ⊎ ((guard_job j (completed output now j) db ≡ true)
        × (job_check (completed output now j) db ≡ true)
        × (j' ≡ completed output now j))

unfoldable pub AllMoved : Text → Text → ℕ → Ledger → List Job → List Job → Type 0
AllMoved job_id output now db [] ks = ks ≡ []
AllMoved job_id output now db (j ∷ js) [] = ⊥
AllMoved job_id output now db (j ∷ js) (k ∷ ks) =
    Moved job_id output now db j k × AllMoved job_id output now db js ks

-- The head of the updated rows.
moved_head :
    {A : Type 0} (other allowed : Bool) (j k : A) (rest ks : List A)
    → (if not other then some (j ∷ rest) else if allowed then some (k ∷ rest) else none) ≡ some ks
    → (ks ≡ j ∷ rest) ⊎ ((allowed ≡ true) × (ks ≡ k ∷ rest))
moved_head false allowed j k rest ks h = inl (ground arith)
moved_head true true j k rest ks h = inr (refl, ground arith)
moved_head true false j k rest ks h = cc

complete_jobs_lem :
    (job_id output : Text) (now : ℕ) (db : Ledger) (js ks : List Job)
    → complete_jobs job_id output now db js ≡ some ks
    → AllMoved job_id output now db js ks
unfolding complete_jobs AllMoved Moved
complete_jobs_lem job_id output now db [] ks h = ground arith
complete_jobs_lem job_id output now db (j ∷ js) ks h =
    elim (Option-cases (complete_jobs job_id output now db js)) [
      | inl e ↦ absurd (none-some (rw e at h))
      | inr (rest, e) ↦
          let tail = complete_jobs_lem job_id output now db js rest e in
          elim (moved_head (text_eq j.job_id job_id) _ j (completed output now j) rest ks
            (rw e at h)) [
              | inl k ↦ rw k (inl refl, tail)
              | inr (a, k) ↦
                  let (g, c) = &&-true (guard_job j (completed output now j) db) _ a in
                  rw k (inr (g, c, refl), tail)
            ]
    ]

-- What an insertion that succeeds has tested and leaves.
pub inserted :
    {A : Type 0} (b : Bool) (x y : A) → (if b then some x else none) ≡ some y → (b ≡ true) × (y ≡ x)
inserted true x y h = (refl, ground arith)
inserted false x y h = cc

pub insert_artifact_lem :
    (a : Artifact) (db db' : Ledger)
    → insert_artifact a db ≡ some db'
    → db' ≡ record db { artifacts = db.artifacts ++ a ∷ [] }
unfolding insert_artifact
insert_artifact_lem a db db' h =
    (inserted _ (record db { artifacts = db.artifacts ++ a ∷ [] }) db' h).1

pub insert_job_lem :
    (j : Job) (db db' : Ledger)
    → insert_job j db ≡ some db'
    → db' ≡ record db { processing_jobs = db.processing_jobs ++ j ∷ [] }
unfolding insert_job
insert_job_lem j db db' h =
    (inserted _ (record db { processing_jobs = db.processing_jobs ++ j ∷ [] }) db' h).1

pub insert_lineage_lem :
    (l : Lineage) (db db' : Ledger)
    → insert_lineage l db ≡ some db'
    → db' ≡ record db { artifact_lineage = db.artifact_lineage ++ l ∷ [] }
unfolding insert_lineage
insert_lineage_lem l db db' h =
    (inserted _ (record db { artifact_lineage = db.artifact_lineage ++ l ∷ [] }) db' h).1

pub complete_job_lem :
    (job_id output : Text) (now : ℕ) (db db' : Ledger)
    → complete_job job_id output now db ≡ some db'
    → (ks : List Job) × AllMoved job_id output now db db.processing_jobs ks
      × (db' ≡ record db { processing_jobs = ks })
unfolding complete_job
complete_job_lem job_id output now db db' h =
    elim (Option-cases (complete_jobs job_id output now db db.processing_jobs)) [
      | inl e ↦ absurd (none-some (rw (e, complete_job) at h))
      | inr (ks, e) ↦ (
        ks,
        complete_jobs_lem job_id output now db db.processing_jobs ks e,
        some-same (rw (e, complete_job) at h),
      )
    ]

-- An artifact that is recorded stays as it is.
pub LedgerStep-artifact :
    (db db' : Ledger) (id : Text) (f : ArtifactFacts)
    → LedgerStep db db'
    → find_artifact id db.artifacts ≡ some f
    → find_artifact id db'.artifacts ≡ some f
LedgerStep-artifact db db' id f (adds_artifact a e) h =
    rw (insert_artifact_lem a db db' e) (find_artifact-append id db.artifacts (a ∷ []) f h)
LedgerStep-artifact db db' id f (adds_job j p e) h = rw (insert_job_lem j db db' e) h
LedgerStep-artifact db db' id f (adds_lineage l e) h = rw (insert_lineage_lem l db db' e) h
LedgerStep-artifact db db' id f (completes job_id output now e) h =
    let (ks, m, k) = complete_job_lem job_id output now db db' e in rw k h

-- So does the lineage of an artifact.
pub LedgerStep-lineage :
    (db db' : Ledger) (id : Text) (r : Text × Text)
    → LedgerStep db db'
    → find_lineage id db.artifact_lineage ≡ some r
    → find_lineage id db'.artifact_lineage ≡ some r
LedgerStep-lineage db db' id r (adds_artifact a e) h = rw (insert_artifact_lem a db db' e) h
LedgerStep-lineage db db' id r (adds_job j p e) h = rw (insert_job_lem j db db' e) h
LedgerStep-lineage db db' id r (adds_lineage l e) h =
    rw (insert_lineage_lem l db db' e) (find_lineage-append id db.artifact_lineage (l ∷ []) r h)
LedgerStep-lineage db db' id r (completes job_id output now e) h =
    let (ks, m, k) = complete_job_lem job_id output now db db' e in rw k h
