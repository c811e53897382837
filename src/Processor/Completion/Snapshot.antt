-- ===== src/Processor/Completion/Snapshot.antt =====
-- `snapshot` of components/processor-worker/apps/processor_worker/worker.py: its candidates are the
-- eligible artifacts of the tables, in order, and it changes no row.
use edge_evidence_showcase.Prelude.{
  ◌≡◌, Bool, subst, refl, ◌∙◌, ap, Option, none, some, List, [], ◌∷◌, Text, all, if◌then◌else◌,
  String,
}
use edge_evidence_showcase.Exec.{Result, ok, err, pure, raise, lift, ◌>>=◌}
use edge_evidence_showcase.Exec.Triple.{
  Post, Triple, Triple-pure, Triple-raise, Triple-if, Triple-lift, Triple-bind, Triple-finally,
  Triple-weaken, Keeps-bind,
}
use edge_evidence_showcase.Processor.History.{accepts_from}
use edge_evidence_showcase.Processor.Json.{has_text}
use edge_evidence_showcase.Processor.Runtime.{Error, Runtime}
use edge_evidence_showcase.Processor.Process.{recorded_history}
use edge_evidence_showcase.Processor.Report.{integrity_profile, job_id_for}
use edge_evidence_showcase.Processor.Ledger.{Artifact, JobIdentity, Job, Ledger, find_job}
use edge_evidence_showcase.Processor.Machine.{Machine, query, current, rollback}
use edge_evidence_showcase.Processor.Stable.{query-Keeps}
use edge_evidence_showcase.Processor.Reads.{query-Reads}
use edge_evidence_showcase.Processor.Transactions.{Closed}
use edge_evidence_showcase.Processor.Catchup.{
  WorkerError, Candidate, renamed_result, renamed, named, connect_readonly, require_authority,
  stored_state, job_state, eligible, candidates, snapshot, keyed_state, identified_state,
  find_identity, required_tables, finding, foreign_result, expected_identity,
}

-- No transaction is open, and the committed tables are these.
abbrev pub At : Ledger → Machine → Type 0
At db m = Closed m × (m.committed ≡ db)

-- Each candidate is of its artifact.
abbrev pub Matches : List Candidate → List Artifact → Type 0
Matches [] [] = Unit
Matches (c ∷ cs) (a ∷ arts) =
    ((c.artifact_id ≡ a.artifact_id) × (c.digest_hex ≡ a.facts.digest_value)) × Matches cs arts
Matches _ _ = ⊥

abbrev pub Any : WorkerError → Machine → Type 0
Any _ _ = Unit

renamed_after :
    {A : Type 0} (Q : A → Machine → Type 0) (E : Error → Machine → Type 0) (f : Error → WorkerError)
    (r : Result Error A × Machine)
    → Post Q E r
    → Post Q Any (renamed_result f r)
unfolding renamed_result
renamed_after Q E f (ok a, m) q = q
renamed_after Q E f (err x, m) q = tt

module _ (db : Ledger) where
  -- A query with its errors renamed.
  asked :
      {A : Type 0} (name : String) (f : Ledger → A)
      → Triple (At db) (renamed (named name) (query f)) (λ a m. At db m × (a ≡ f db)) Any
  unfolding current
  asked name f = record {
    at = λ m p. renamed_after _ _ (named name) (query f m) (
        (Triple-weaken _ _ (λ a m. At db m × (a ≡ f db)) (λ _. At db)
            (Triple-weaken _ _ _ _ (query-Reads (At db) (λ m p. p) f) (λ m p. p)
              (λ a m ((w, c), e). ((w, c), e ∙ ap f (rw (w, c) refl))) (λ x m p. p))
            (λ m p. p) (λ a m q. q) (λ x m p. p)).at
          m p);
  }

  asked_any :
      {A : Type 0} (name : String) (f : Ledger → A)
      → Triple (At db) (renamed (named name) (query f)) (λ _. At db) Any
  asked_any name f = Triple-weaken _ _ _ _ (asked name f) (λ m p. p) (λ a m q. q.0) (λ x m p. p)

  pub test :
      (b : Bool) (x : WorkerError)
      → Triple (At db) (if b then pure tt else raise x) (λ _. At db) Any
  test b x = Triple-if b _ _ (λ _. Triple-pure tt (λ m p. p)) (λ _. Triple-raise x (λ m p. tt))

  connect_readonly-At : Triple (At db) connect_readonly (λ _. At db) Any
  unfolding connect_readonly
  connect_readonly-At = record {
    at = λ m p.
        renamed_after (λ _. At db) (λ _. At db) _ _
          ((Keeps-bind _ _ (query-Keeps (At db) (λ m p. p) (λ _. tt)) λ _.
              Keeps-bind _ _ (query-Keeps (At db) (λ m p. p) (λ _. tt))
                λ _. query-Keeps (At db) (λ m p. p) (λ _. tt)).at
            m p);
  }

  require_authority-At : Triple (At db) require_authority (λ _. At db) Any
  unfolding require_authority
  require_authority-At =
      Triple-bind _ _ (λ _. At db) (asked_any "database_integrity_failure" recorded_history)
        λ recorded.
          Triple-bind _ _ (λ _. At db)
            (test (accepts_from recorded 8) (finding "database_migration_required" 7))
            λ _.
              Triple-bind _ _ (λ _. At db)
                (asked_any "database_integrity_failure" (λ db. db.table_names))
                λ present.
                  test (all (λ t. has_text t present) required_tables)
                    (finding "database_migration_required" 7)

  lifted : {A : Type 0} (r : Result WorkerError A) → Triple (At db) (lift r) (λ _. At db) Any
  lifted r = Triple-lift r (λ a e m p. p) (λ x e m p. tt)

  stored_state-At :
      (job_id : Text) (expected : JobIdentity)
      → Triple (At db) (stored_state job_id expected) (λ _. At db) Any
  unfolding stored_state
  stored_state-At job_id expected =
      Triple-bind _ _ (λ _. At db)
        (asked_any "database_integrity_failure" (λ db. find_job job_id db.processing_jobs)) found
    where
      found :
          (row : Option Job)
          → Triple
              (At db)
              (elim row [
                | some j ↦ lift (keyed_state expected j)
                | none ↦
                    renamed
                      (named "database_integrity_failure")
                      (query (λ db. find_identity expected db.processing_jobs))
                    >>= λ other. lift (identified_state job_id expected other)
              ])
              (λ _. At db)
              Any
      found (some j) = lifted (keyed_state expected j)
      found none =
          Triple-bind _ _ (λ _. At db)
            (asked_any "database_integrity_failure"
              (λ db. find_identity expected db.processing_jobs))
            λ other. lifted (identified_state job_id expected other)

  module _ (runtime : Runtime) where
    job_state-At : (id hex : Text) → Triple (At db) (job_state runtime id hex) (λ _. At db) Any
    unfolding job_state
    job_state-At id hex =
        Triple-bind _ _ (λ _. At db)
          (lifted (foreign_result (job_id_for runtime hex integrity_profile)))
          λ job_id.
            Triple-bind _ _ (λ _. At db) (lifted (foreign_result (expected_identity runtime id)))
              λ expected. stored_state-At job_id expected

    candidates-At :
        (arts : List Artifact)
        → Triple (At db) (candidates runtime arts) (λ cs m. At db m × Matches cs arts) Any
    unfolding candidates
    candidates-At [] = Triple-pure [] (λ m p. (p, tt))
    candidates-At (a ∷ more) =
        Triple-bind _ _ (λ _. At db) (job_state-At a.artifact_id a.facts.digest_value)
          λ state.
            Triple-bind _ _ _ (candidates-At more)
              λ rest. Triple-pure _ (λ m (p, q). (p, ((refl, refl), q)))

    pub snapshot-At :
        Triple (At db) (snapshot runtime) (λ cs m. At db m × Matches cs (eligible db)) Any
    unfolding snapshot
    snapshot-At =
        Triple-bind _ _ (λ _. At db) connect_readonly-At
          λ _. Triple-finally _ rollback (
            Triple-weaken _ _ (λ cs m. At db m × Matches cs (eligible db)) Any
              (Triple-bind _ _ (λ rows m. At db m × (rows ≡ eligible db))
                (Triple-bind _ _ (λ _. At db) require_authority-At
                  λ _. asked "database_integrity_failure" eligible)
                λ rows. record {
                  at = λ m (p, e).
                      subst
                        (λ arts.
                          Post (λ cs m. At db m × Matches cs arts) Any (candidates runtime rows m))
                        e ((candidates-At rows).at m p);
                })
              (λ m p. p) (λ cs m ((w, c), q). ((refl, c), q)) (λ x m p. tt))
