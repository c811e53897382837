-- ===== src/Processor/Transactions/Completing/Rows.antt =====
-- What the statements of the COMPLETE transaction (components/processor-worker/apps/edge_agent/process.py)
-- do to the rows.
use edge_evidence_showcase.Prelude.{
  ℕ, ◌≡◌, refl, Bool, true, false, not, Option-cases, inl, inr, none, some, List, [], ◌∷◌, ◌++◌,
  Text, text_eq, arith, if◌then◌else◌,
}
use edge_evidence_showcase.Processor.Ledger.{
  Artifact, Job, Lineage, Ledger, find_artifact, find_job, find_lineage, completed, complete_jobs,
  complete_job,
}
use edge_evidence_showcase.Processor.Ledger.Steps.{none-some, some-same}

pub find_artifact-fresh :
    (id : Text) (xs : List Artifact) (a : Artifact)
    → find_artifact id xs ≡ none
    → text_eq a.artifact_id id ≡ true
    → find_artifact id (xs ++ a ∷ []) ≡ some a.facts
unfolding find_artifact
find_artifact-fresh id [] a h k = ground arith
find_artifact-fresh id (x ∷ xs) a h k = ground (arith, find_artifact-fresh id xs a)

pub find_lineage-fresh :
    (id : Text) (xs : List Lineage) (l : Lineage)
    → find_lineage id xs ≡ none
    → text_eq l.child_artifact_id id ≡ true
    → find_lineage id (xs ++ l ∷ []) ≡ some (l.parent_artifact_id, l.relation)
unfolding find_lineage
find_lineage-fresh id [] l h k = ground arith
find_lineage-fresh id (x ∷ xs) l h k = ground (arith, find_lineage-fresh id xs l)

-- The updated job is the one that is found under its key.
head_found :
    (id out : Text) (now : ℕ) (same allowed : Bool) (x j : Job) (xs rest ks : List Job)
    → text_eq x.job_id id ≡ same
    → (if not same
        then some (x ∷ rest)
        else if allowed
        then some (completed out now x ∷ rest)
        else none)
      ≡ some ks
    → find_job id (x ∷ xs) ≡ some j
    → (find_job id xs ≡ some j → find_job id rest ≡ some (completed out now j))
    → find_job id ks ≡ some (completed out now j)
unfolding find_job completed
head_found id out now false allowed x j xs rest ks e h f k =
    let same : ks ≡ x ∷ rest = some-same h in rw (same, e) (k (rw e at f))
head_found id out now true true x j xs rest ks e h f k =
    let same : ks ≡ completed out now x ∷ rest = some-same h in
    let this : j ≡ x = some-same (rw e at f) in rw (same, this, e) refl
head_found id out now true false x j xs rest ks e h f k = absurd (none-some h)

complete_jobs-find :
    (id out : Text) (now : ℕ) (db : Ledger) (js ks : List Job) (j : Job)
    → complete_jobs id out now db js ≡ some ks
    → find_job id js ≡ some j
    → find_job id ks ≡ some (completed out now j)
unfolding complete_jobs find_job
complete_jobs-find id out now db [] ks j h f = absurd (none-some f)
complete_jobs-find id out now db (x ∷ xs) ks j h f =
    elim (Option-cases (complete_jobs id out now db xs)) [
      | inl e ↦ absurd (none-some (rw e at h))
      | inr (rest, e) ↦
          head_found id out now (text_eq x.job_id id) _ x j xs rest ks refl (rw e at h) f
            (complete_jobs-find id out now db xs rest j e)
    ]

pub complete_job-find :
    (id out : Text) (now : ℕ) (db db' : Ledger) (j : Job)
    → complete_job id out now db ≡ some db'
    → find_job id db.processing_jobs ≡ some j
    → find_job id db'.processing_jobs ≡ some (completed out now j)
unfolding complete_job
complete_job-find id out now db db' j h f =
    elim (Option-cases (complete_jobs id out now db db.processing_jobs)) [
      | inl e ↦ absurd (none-some (rw (e, complete_job) at h))
      | inr (ks, e) ↦
          let same : db' ≡ record db { processing_jobs = ks } =
            some-same (rw (e, complete_job) at h) in
          rw same (complete_jobs-find id out now db db.processing_jobs ks j e f)
    ]
