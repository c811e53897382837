-- ===== src/Processor/Ledger/Sound.antt =====
-- What the constraints of migration 4 (components/processor-worker/packages/database/migrations.py)
-- keep over every sequence of changes: a COMPLETE job stays as it is and has its output.
use edge_evidence_showcase.Prelude.{
  ℕ, ◌≡◌, refl, sym, ◌∙◌, ap, subst, true, Bool-cases, Option-cases, inl, inr, Option, none, some,
  List, [], ◌∷◌, ◌++◌, Text, text_eq, text_eq→eq, arith, Each,
}
use edge_evidence_showcase.Processor.Report.{relation_type}
use edge_evidence_showcase.Processor.Ledger.Steps.{
  LedgerStep, adds_artifact, adds_job, adds_lineage, completes, false-true, Moved, AllMoved,
  insert_artifact_lem, insert_job_lem, insert_lineage_lem, complete_job_lem, LedgerStep-artifact,
  LedgerStep-lineage,
}
use edge_evidence_showcase.Processor.Ledger.{
  ArtifactFacts, prepared, complete, Job, Ledger, find_artifact, find_job, find_lineage,
  has_artifact, output_check, job_check, is_prepared, lineage_matches, output_lineage, guard_job,
  completed,
}

find_job-append :
    (id : Text) (xs ys : List Job) (j : Job)
    → find_job id xs ≡ some j
    → find_job id (xs ++ ys) ≡ some j
unfolding find_job
find_job-append id [] ys j h = cc
find_job-append id (x ∷ xs) ys j h = ground (arith, find_job-append id xs ys j)

-- The guard refuses a COMPLETE job.
guard_job-complete : (j k : Job) (db : Ledger) → j.state ≡ complete → guard_job j k db ≡ true → ⊥
unfolding guard_job is_prepared
guard_job-complete j k db c g = ground arith

complete_unmoved :
    (job_id output : Text) (now : ℕ) (db : Ledger) (j k : Job)
    → j.state ≡ complete
    → Moved job_id output now db j k
    → k ≡ j
unfolding Moved guard_job is_prepared
complete_unmoved job_id output now db j k c (inl e) = e
complete_unmoved job_id output now db j k c (inr (g, _, _)) =
    absurd (guard_job-complete j (completed output now j) db c g)

Moved-id :
    (job_id output : Text) (now : ℕ) (db : Ledger) (j k : Job)
    → Moved job_id output now db j k
    → k.job_id ≡ j.job_id
unfolding Moved completed
Moved-id job_id output now db j k (inl e) = rw e refl
Moved-id job_id output now db j k (inr (g, c, e)) = rw e refl

-- A COMPLETE job is found unchanged behind an update.
AllMoved-find :
    (job_id output : Text) (now : ℕ) (db : Ledger) (id : Text) (js ks : List Job) (j : Job)
    → AllMoved job_id output now db js ks
    → find_job id js ≡ some j
    → j.state ≡ complete
    → find_job id ks ≡ some j
unfolding AllMoved find_job
AllMoved-find job_id output now db id [] ks j m h c = cc
AllMoved-find job_id output now db id (x ∷ xs) [] j m h c = absurd m
AllMoved-find job_id output now db id (x ∷ xs) (k ∷ ks) j (m, ms) h c =
    elim (Bool-cases (text_eq x.job_id id)) [
      | inl e ↦
          let same : x ≡ j = ground arith in
          let kept = complete_unmoved job_id output now db x k (rw same c) m in ground (arith, kept)
      | inr e ↦
          let tail = AllMoved-find job_id output now db id xs ks j ms (ground arith) c in
          ground (arith, tail, Moved-id job_id output now db x k m)
    ]

-- A COMPLETE job stays as it is.
pub LedgerStep-job :
    (db db' : Ledger) (id : Text) (j : Job)
    → LedgerStep db db'
    → j.state ≡ complete
    → find_job id db.processing_jobs ≡ some j
    → find_job id db'.processing_jobs ≡ some j
LedgerStep-job db db' id j (adds_artifact a e) c h = rw (insert_artifact_lem a db db' e) h
LedgerStep-job db db' id j (adds_job k p e) c h =
    rw (insert_job_lem k db db' e) (find_job-append id db.processing_jobs (k ∷ []) j h)
LedgerStep-job db db' id j (adds_lineage l e) c h = rw (insert_lineage_lem l db db' e) h
LedgerStep-job db db' id j (completes job_id output now e) c h =
    let (ks, m, k) = complete_job_lem job_id output now db db' e in
    rw k (AllMoved-find job_id output now db id db.processing_jobs ks j m h c)

-- The output of a job is an artifact of the ledger, derived from the input of the job.
abbrev pub HasOutput : Ledger → Job → Type 0
HasOutput db j =
    (out : Text) × (facts : ArtifactFacts) × (j.output_artifact_id ≡ some out)
    × (find_lineage out db.artifact_lineage ≡ some (j.identity.input_artifact_id, relation_type))
    × (find_artifact out db.artifacts ≡ some facts)

-- Every COMPLETE job has its output.
unfoldable pub IsSound : Ledger → Type 0
IsSound db = Each (λ j. j.state ≡ complete → HasOutput db j) db.processing_jobs

Each-append :
    {A : Type 0} (P : A → Type 0) (xs : List A) (y : A) → Each P xs → P y → Each P (xs ++ y ∷ [])
Each-append P [] y h k = (k, tt)
Each-append P (x ∷ xs) y h k = (h.0, Each-append P xs y h.1 k)

Each-map :
    {A : Type 0} (P Q : A → Type 0) (xs : List A) → ((a : A) → P a → Q a) → Each P xs → Each Q xs
Each-map P Q [] f h = tt
Each-map P Q (x ∷ xs) f h = (f x h.0, Each-map P Q xs f h.1)

-- An output stays one.
HasOutput-step : (db db' : Ledger) (j : Job) → LedgerStep db db' → HasOutput db j → HasOutput db' j
HasOutput-step db db' j s (out, facts, o, l, a) =
    (out, facts, o, LedgerStep-lineage db db' out _ s l, LedgerStep-artifact db db' out facts s a)

lineage_matches_lem :
    (r : Option (Text × Text)) (parent : Text)
    → lineage_matches r parent ≡ true
    → r ≡ some (parent, relation_type)
unfolding lineage_matches
lineage_matches_lem none parent h = cc
lineage_matches_lem (some (p, r)) parent h =
    ground (arith, text_eq→eq p parent, text_eq→eq r relation_type)

has_artifact_lem :
    (id : Text) (db : Ledger)
    → has_artifact id db ≡ true
    → (facts : ArtifactFacts) × (find_artifact id db.artifacts ≡ some facts)
unfolding has_artifact
has_artifact_lem id db h = elim (Option-cases (find_artifact id db.artifacts)) [
  | inl e ↦ absurd (false-true (rw e at h))
  | inr (facts, e) ↦ (facts, e)
]

guard_job-lineage :
    (j k : Job) (db : Ledger) (out : Text)
    → k.output_artifact_id ≡ some out
    → guard_job j k db ≡ true
    → find_lineage out db.artifact_lineage ≡ some (k.identity.input_artifact_id, relation_type)
unfolding guard_job output_lineage
guard_job-lineage j k db out e g =
    lineage_matches_lem (find_lineage out db.artifact_lineage) k.identity.input_artifact_id
      (ground arith)

job_check-output :
    (k : Job) (db : Ledger) (out : Text)
    → k.output_artifact_id ≡ some out
    → job_check k db ≡ true
    → (facts : ArtifactFacts) × (find_artifact out db.artifacts ≡ some facts)
unfolding job_check output_check
job_check-output k db out e c = has_artifact_lem out db (ground arith)

completed-HasOutput :
    (output : Text) (now : ℕ) (db : Ledger) (j : Job)
    → guard_job j (completed output now j) db ≡ true
    → job_check (completed output now j) db ≡ true
    → HasOutput db (completed output now j)
unfolding completed
completed-HasOutput output now db j g c =
    let (facts, a) = job_check-output (completed output now j) db output refl c in
    (output, facts, refl, guard_job-lineage j (completed output now j) db output refl g, a)

AllMoved-IsSound :
    (job_id output : Text) (now : ℕ) (db : Ledger) (js ks : List Job)
    → AllMoved job_id output now db js ks
    → Each (λ j. j.state ≡ complete → HasOutput db j) js
    → Each (λ j. j.state ≡ complete → HasOutput db j) ks
unfolding AllMoved Moved
AllMoved-IsSound job_id output now db [] ks m h = rw m tt
AllMoved-IsSound job_id output now db (j ∷ js) [] m h = absurd m
AllMoved-IsSound job_id output now db (j ∷ js) (k ∷ ks) (inl e, ms) h =
    (rw e h.0, AllMoved-IsSound job_id output now db js ks ms h.1)
AllMoved-IsSound job_id output now db (j ∷ js) (k ∷ ks) (inr (g, c, e), ms) h = (
  λ _. rw e (completed-HasOutput output now db j g c),
  AllMoved-IsSound job_id output now db js ks ms h.1,
)

prepared-complete : prepared ≡ complete → ⊥
prepared-complete h = cc

module _ (db db' : Ledger) (s : LedgerStep db db') where
  abbrev Outputs : List Job → Type 0
  Outputs = Each (λ j. j.state ≡ complete → HasOutput db' j)

  lifted : (js : List Job) → Each (λ j. j.state ≡ complete → HasOutput db j) js → Outputs js
  lifted js h =
      Each-map (λ j. j.state ≡ complete → HasOutput db j)
        (λ j. j.state ≡ complete → HasOutput db' j) js (λ j f c. HasOutput-step db db' j s (f c)) h

  -- The rows of the ledger behind a change.
  jobs_are : (js : List Job) → db'.processing_jobs ≡ js → Outputs js → Outputs db'.processing_jobs
  jobs_are js e h = subst Outputs (sym e) h

-- Every change of the ledger keeps: a COMPLETE job has an output, which is a recorded artifact whose
-- lineage names the input of the job as its parent.
pub LedgerStep-IsSound : (db db' : Ledger) → LedgerStep db db' → IsSound db → IsSound db'
unfolding IsSound
LedgerStep-IsSound db db' (adds_artifact a e) h =
    jobs_are db db' (adds_artifact a e) db.processing_jobs
      (ap (λ (t : Ledger). t.processing_jobs) (insert_artifact_lem a db db' e))
      (lifted db db' (adds_artifact a e) db.processing_jobs h)
LedgerStep-IsSound db db' (adds_job j p e) h =
    jobs_are db db' (adds_job j p e) (db.processing_jobs ++ j ∷ [])
      (ap (λ (t : Ledger). t.processing_jobs) (insert_job_lem j db db' e))
      (Each-append _ db.processing_jobs j (lifted db db' (adds_job j p e) db.processing_jobs h)
        (λ c. absurd (prepared-complete (sym p ∙ c))))
LedgerStep-IsSound db db' (adds_lineage l e) h =
    jobs_are db db' (adds_lineage l e) db.processing_jobs
      (ap (λ (t : Ledger). t.processing_jobs) (insert_lineage_lem l db db' e))
      (lifted db db' (adds_lineage l e) db.processing_jobs h)
LedgerStep-IsSound db db' (completes job_id output now e) h =
    let (ks, m, k) = complete_job_lem job_id output now db db' e in
    jobs_are db db' (completes job_id output now e) ks (ap (λ (t : Ledger). t.processing_jobs) k) (
      lifted db db' (completes job_id output now e) ks
        (AllMoved-IsSound job_id output now db db.processing_jobs ks m h))
