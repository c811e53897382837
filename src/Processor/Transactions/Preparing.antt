-- ===== src/Processor/Transactions/Preparing.antt =====
-- `_create_or_adopt_prepared` of components/processor-worker/apps/edge_agent/process.py: one new
-- PREPARED job, or none.
use edge_evidence_showcase.Prelude.{
  ℕ, ◌≡◌, refl, sym, ◌∙◌, ap, subst, true, Option, none, some, [], ◌∷◌, ◌++◌, text_eq→eq, arith,
}
use edge_evidence_showcase.Exec.Triple.{
  Post, Triple, Triple-pure, Triple-if, Triple-bind, Triple-catch, Triple-weaken,
}
use edge_evidence_showcase.Processor.Runtime.{
  SqliteError, Error, failure, lock_busy, processing, sqlite, os_error, overflow, collision, killed,
}
use edge_evidence_showcase.Processor.Ledger.{
  JobIdentity, Job, Ledger, find_job, identity_eq, insert_job,
}
use edge_evidence_showcase.Processor.Ledger.Steps.{insert_job_lem}
use edge_evidence_showcase.Processor.Machine.{Machine, roll_back}
use edge_evidence_showcase.Processor.Plan.{InputEvidence, DerivedPlan, job_identity}
use edge_evidence_showcase.Processor.Jobs.{
  Disposition, created, existing, read_job, prepared_job, adopt_or_insert, prepared_failed,
  create_or_adopt_prepared,
}
use edge_evidence_showcase.Processor.Stable.Staging.{look_at-Keeps}
use edge_evidence_showcase.Processor.Transactions.{
  Closed, Inside, Unchanged, begin-Inside, query-Inside, execute-Inside, commit-Inside,
}

identity_eq→eq : (a b : JobIdentity) → identity_eq a b ≡ true → a ≡ b
unfolding identity_eq
identity_eq→eq a b h = ground (
  arith,
  text_eq→eq a.input_artifact_id b.input_artifact_id,
  text_eq→eq a.processor_name b.processor_name,
  text_eq→eq a.processor_version b.processor_version,
  text_eq→eq a.output_contract b.output_contract,
  text_eq→eq a.parameters_json b.parameters_json,
  text_eq→eq a.parameters_sha256 b.parameters_sha256,
)

module _ (plan : DerivedPlan) (evidence : InputEvidence) where
  -- The tables with one new PREPARED job, or unchanged with a job of this identity.
  abbrev pub Prepared : Ledger → Disposition → Ledger → Type 0
  Prepared start created db =
      (now : ℕ) × (find_job plan.job_id start.processing_jobs ≡ none)
      × (db ≡ record start {
        processing_jobs = start.processing_jobs ++ prepared_job plan evidence now ∷ [];
      })
  Prepared start existing db =
      (j : Job) × (find_job plan.job_id start.processing_jobs ≡ some j)
      × (j.identity ≡ job_identity plan evidence)
      × (db ≡ start)

  module _ (start : Ledger) where
    -- The view of a transaction that has only read so far.
    abbrev Looked : Option Job → Ledger → Type 0
    Looked o t = (t ≡ start) × (o ≡ find_job plan.job_id t.processing_jobs)

    inserted_job :
        (now : ℕ) (t u : Ledger)
        → Looked none t
        → insert_job (prepared_job plan evidence now) t ≡ some u
        → Prepared start created u
    inserted_job now t u (s, f) e = (
      now,
      subst (λ r. find_job plan.job_id r.processing_jobs ≡ none) s (sym f),
      insert_job_lem (prepared_job plan evidence now) t u e
          ∙ ap
              (λ (r : Ledger). record r {
                processing_jobs = r.processing_jobs ++ prepared_job plan evidence now ∷ [];
              })
              s,
    )

    rolled :
        (j : Job)
        → Triple
            (Inside start (Looked (some j)))
            roll_back
            (λ _ m. (m.committed ≡ start) × (find_job plan.job_id start.processing_jobs ≡ some j))
            (λ _. Unchanged start)
    unfolding roll_back
    rolled j = record {
      at = λ m (t, w, (s, f), c).
          (c, subst (λ r. find_job plan.job_id r.processing_jobs ≡ some j) s (sym f));
    }

    adopt_or_insert-Inside :
        (o : Option Job)
        → Triple
            (Inside start (Looked o))
            (adopt_or_insert plan evidence o)
            (λ d m. Prepared start d m.committed)
            (λ _. Unchanged start)
    unfolding adopt_or_insert
    adopt_or_insert-Inside (some j) = Triple-bind _ _ _ (rolled j) λ _.
        Triple-if (identity_eq j.identity (job_identity plan evidence)) _ _
          (λ e. Triple-pure existing (λ m q. (j, q.1, identity_eq→eq j.identity _ e, q.0)))
          (λ _. record { at = λ m q. q.0 })
    adopt_or_insert-Inside none =
        Triple-bind _ _ (λ now. Inside start (Looked none))
          (Triple-weaken _ _ _ _ (look_at-Keeps (Inside start (Looked none)) _) (λ m q. q)
            (λ a m q. q) (λ x m (t, w, q, c). c))
          λ now.
            Triple-bind _ _ (λ _. Inside start (Prepared start created))
              (Triple-weaken _ _ _ _ (execute-Inside start (Looked none) _) (λ m q. q)
                (λ a m (u, w, (t, q, e), c). (u, w, inserted_job now t u q e, c)) (λ x m q. q))
              λ _.
                Triple-bind _ _ (λ _ m. Closed m × Prepared start created m.committed)
                  (commit-Inside start (Prepared start created))
                  λ _. Triple-pure created (λ m q. q.1)

    -- The handlers raise, and change no committed table.
    handled :
        {A : Type 0} {R : A → Machine → Type 0} (x : Error)
        → Triple (Unchanged start) (prepared_failed x) R (λ _. Unchanged start)
    unfolding prepared_failed roll_back
    handled (sqlite SqliteError.integrity) = record { at = λ m q. q }
    handled (sqlite SqliteError.operational) = record { at = λ m q. q }
    handled (sqlite SqliteError.unspecified) = record { at = λ m q. q }
    handled (failure c) = record { at = λ m q. q }
    handled lock_busy = record { at = λ m q. q }
    handled (processing c) = record { at = λ m q. q }
    handled os_error = record { at = λ m q. q }
    handled overflow = record { at = λ m q. q }
    handled collision = record { at = λ m q. q }
    handled killed = record { at = λ m q. q }

    create_or_adopt_prepared-Triple :
        Triple
          (λ m. Closed m × Unchanged start m)
          (create_or_adopt_prepared plan evidence)
          (λ d m. Prepared start d m.committed)
          (λ _. Unchanged start)
    unfolding create_or_adopt_prepared read_job
    create_or_adopt_prepared-Triple =
        Triple-bind _ _ (λ _. Inside start (λ t. t ≡ start))
          (Triple-weaken _ _ _ _ (begin-Inside start (λ t. t ≡ start)) (λ m p. (p.0, p.1, refl))
            (λ a m q. q) (λ x m q. q))
          λ _.
            Triple-catch _ prepared_failed (λ _. Unchanged start)
              (Triple-bind _ _ _ (query-Inside start (λ t. t ≡ start) _) adopt_or_insert-Inside)
              handled

-- With no transaction open, whatever fails and wherever the process is killed: if
-- _create_or_adopt_prepared returns created, then there was no job under the key, and the committed
-- tables have one job more, which is PREPARED with the identity of the plan; if it returns existing,
-- then the tables are unchanged and have a job with that identity; if it raises, they are unchanged.
pub create_or_adopt_prepared-atomic :
    (plan : DerivedPlan) (evidence : InputEvidence) (m : Machine)
    → m.working ≡ none
    → Post
        (λ d m'. Prepared plan evidence m.committed d m'.committed)
        (λ _ m'. m'.committed ≡ m.committed)
        (create_or_adopt_prepared plan evidence m)
create_or_adopt_prepared-atomic plan evidence m w =
    (create_or_adopt_prepared-Triple plan evidence m.committed).at m (w, refl)
