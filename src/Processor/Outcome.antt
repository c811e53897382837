-- ===== src/Processor/Outcome.antt =====
-- What holds when `process_artifact` of components/processor-worker/apps/edge_agent/process.py
-- returns, and what it refuses.
use edge_evidence_showcase.Prelude.{◌≡◌, refl, Option, none, Text, text, drop}
use edge_evidence_showcase.Exec.{ok, pure, ◌>>=◌, ◌>>◌}
use edge_evidence_showcase.Exec.Triple.{
  Post, Triple, Triple-and, Keeps, Keeps-bind, Triple-catch, Triple-pure, Triple-if, Triple-bind,
  Triple-finally, Triple-any, Triple-weaken,
}
use edge_evidence_showcase.Processor.Runtime.{
  SqliteError, Error, failure, lock_busy, processing, sqlite, os_error, overflow, collision, killed,
  Runtime,
}
use edge_evidence_showcase.Processor.Ledger.{Job}
use edge_evidence_showcase.Processor.Machine.{
  Fault, fine, refused, crash, Machine, Call, rollback, roll_back, current, with_sqlite, next_fault,
  spent, begin, commit, set_files, attempt,
}
use edge_evidence_showcase.Processor.Plan.{
  ProcessRequest, InputEvidence, DerivedPlan, plan_derivation,
}
use edge_evidence_showcase.Processor.Jobs.{
  Disposition, created, existing, create_or_adopt_prepared, read_job, upsert_derived_artifact,
  upsert_lineage, transition_job_complete, complete_failed, complete_rows, finalize_complete,
  require_unambiguous_input_assertion,
}
use edge_evidence_showcase.Processor.Publishing.{
  preflight_processing_paths, produce_and_publish, verify_final_pair,
}
use edge_evidence_showcase.Processor.Locking.{spool_lock}
use edge_evidence_showcase.Processor.Process.{
  is_complete, verify_authority, derive, adopt_or_derive, process_connected, process_artifact,
}
use edge_evidence_showcase.Processor.Stable.Staging.{attempt-Keeps, ensure-Keeps, check-Keeps}
use edge_evidence_showcase.Processor.Stable.Jobs.{read_job-Keeps}
use edge_evidence_showcase.Processor.Stable.Process.{
  connect-Keeps, require_v4-Keeps, open_lock_file-Keeps, acquired-Keeps,
}
use edge_evidence_showcase.Processor.Reads.{attempt_then}
use edge_evidence_showcase.Processor.Gate.{evidence_gate-Reads}
use edge_evidence_showcase.Processor.Verified.{FinalPair, PlannedRows, verify_authority-Reads}
use edge_evidence_showcase.Processor.Transactions.{Closed}

-- The state agrees with the plan that is returned: the files and the committed rows of a derivation
-- from verified evidence.
abbrev pub Settled : Runtime → DerivedPlan → InputEvidence → Machine → Type 0
Settled runtime plan evidence m = FinalPair runtime plan m × PlannedRows plan evidence m.committed

-- The evidence is about the requested artifact.
abbrev pub IsOf : ProcessRequest → InputEvidence → Type 0
IsOf request evidence =
    (evidence.artifact_id ≡ request.input_artifact_id)
    × (evidence.digest_hex ≡ drop 7 request.input_artifact_id)

module _ (runtime : Runtime) where
  abbrev pub Anything : Error → Machine → Type 0
  Anything _ _ = Unit

  verified_authority :
      (plan : DerivedPlan) (evidence : InputEvidence)
      → Triple Closed
          (verify_authority runtime plan evidence)
          (λ _. Settled runtime plan evidence)
          Anything
  unfolding current
  verified_authority plan evidence =
      Triple-weaken _ _ _ _ (verify_authority-Reads Closed (λ m w. w) runtime plan evidence)
        (λ m p. p) (λ a m q. (q.0.1, rw q.0.0 at q.1)) (λ x m p. tt)

  abbrev Answer : DerivedPlan → InputEvidence → Disposition × DerivedPlan → Machine → Type 0
  Answer plan evidence r m = (r.1 ≡ plan) × Settled runtime plan evidence m

  answered :
      (plan : DerivedPlan) (evidence : InputEvidence) (d : Disposition)
      → Triple Closed
          (verify_authority runtime plan evidence >> pure (d, plan))
          (Answer plan evidence)
          Anything
  answered plan evidence d =
      Triple-bind _ _ _ (verified_authority plan evidence)
        λ _. Triple-pure (d, plan) (λ m q. (refl, q))

  any_call :
      {A B : Type 0} {Q : B → Machine → Type 0} (x : Call A) (f : A → Call B)
      → ((a : A) → Triple (λ _. Unit) (f a) Q Anything)
      → Triple (λ _. Unit) (x >>= f) Q Anything
  any_call x f k = Triple-bind x f (λ _ _. Unit) (Triple-any x) k

  committed_by :
      (x : Fault) (m : Machine)
      → Post {A = Unit}
          (λ _. Closed)
          Anything
          (with_sqlite
            (λ m. (ok tt, record m { committed = current m.working m.committed; working = none }))
            x
            m)
  unfolding with_sqlite
  committed_by fine m = refl
  committed_by (refused e) m = tt
  committed_by (crash n) m = tt

  commit-Closed : Triple (λ _. Unit) commit (λ _. Closed) Anything
  unfolding commit
  commit-Closed = record { at = λ m p. committed_by (next_fault m.faults) (spent m) }

  -- The handlers raise.
  handled :
      {A : Type 0} {R : A → Machine → Type 0} (x : Error)
      → Triple (λ _. Unit) (complete_failed x) R Anything
  unfolding complete_failed roll_back
  handled (sqlite SqliteError.integrity) = record { at = λ m q. tt }
  handled (sqlite SqliteError.operational) = record { at = λ m q. tt }
  handled (sqlite SqliteError.unspecified) = record { at = λ m q. tt }
  handled (failure c) = record { at = λ m q. tt }
  handled lock_busy = record { at = λ m q. tt }
  handled (processing c) = record { at = λ m q. tt }
  handled os_error = record { at = λ m q. tt }
  handled overflow = record { at = λ m q. tt }
  handled collision = record { at = λ m q. tt }
  handled killed = record { at = λ m q. tt }

  finalized :
      (plan : DerivedPlan) (evidence : InputEvidence)
      → Triple (λ _. Unit) (finalize_complete plan evidence) (λ _. Closed) Anything
  unfolding finalize_complete complete_rows
  finalized plan evidence = any_call begin _ λ _.
      Triple-catch _ complete_failed Anything
        (any_call (upsert_derived_artifact plan evidence) _ λ a.
          any_call (upsert_lineage plan evidence) _ λ l.
            any_call (transition_job_complete plan) _ λ j.
              Triple-bind _ _ (λ _. Closed) commit-Closed λ _. Triple-pure (a, l, j) (λ m q. q))
        handled

  derived :
      (plan : DerivedPlan) (evidence : InputEvidence)
      → Triple (λ _. Unit) (derive runtime plan evidence) (Answer plan evidence) Anything
  unfolding derive
  derived plan evidence = any_call (require_unambiguous_input_assertion evidence.artifact_id) _ λ _.
      any_call (preflight_processing_paths runtime plan) _ λ _.
        any_call (create_or_adopt_prepared plan evidence) _ λ _.
          any_call (produce_and_publish runtime plan) _ λ _.
            any_call (verify_final_pair runtime plan evidence) _ λ _.
              Triple-bind _ _ (λ _. Closed) (finalized plan evidence)
                λ _. answered plan evidence created

  adopted :
      (plan : DerivedPlan) (evidence : InputEvidence) (job : Option Job)
      → Triple Closed (adopt_or_derive runtime plan evidence job) (Answer plan evidence) Anything
  unfolding adopt_or_derive
  adopted plan evidence job =
      Triple-if (is_complete job) _ _ (λ _. answered plan evidence existing)
        (λ _. Triple-weaken _ _ _ _ (derived plan evidence) (λ m p. tt) (λ a m q. q) (λ x m p. p))

  -- The evidence, the plan and the state behind an answer.
  abbrev pub Answers : ProcessRequest → Disposition × DerivedPlan → Machine → Type 0
  Answers request r m =
      (evidence : InputEvidence) × IsOf request evidence
      × (plan_derivation runtime evidence request.profile ≡ ok r.1)
      × Settled runtime r.1 evidence m

  kept : {A : Type 0} {m : Call A} → Keeps Closed m → Triple Closed m (λ _. Closed) Anything
  kept k = Triple-weaken _ _ _ _ k (λ m p. p) (λ a m q. q) (λ x m p. tt)

  planned :
      (request : ProcessRequest) (evidence : InputEvidence)
      → IsOf request evidence
      → Triple Closed
          (attempt (plan_derivation runtime evidence request.profile) >>= λ plan.
            read_job plan.job_id >>= adopt_or_derive runtime plan evidence)
          (Answers request)
          Anything
  planned request evidence i =
      attempt_then (plan_derivation runtime evidence request.profile) _
        (λ plan e.
          Triple-bind _ _ (λ _. Closed) (kept (read_job-Keeps Closed (λ m w. w) plan.job_id))
            λ job.
              Triple-weaken _ _ _ _ (adopted plan evidence job) (λ m p. p)
                (λ r m q. (evidence, i, rw q.0 e, rw q.0 q.1)) (λ x m p. p))
        (λ x m p. tt)

  connected :
      (request : ProcessRequest)
      → Triple Closed (process_connected runtime request) (Answers request) Anything
  unfolding process_connected
  connected request =
      Triple-bind _ _ (λ _. Closed) (kept (require_v4-Keeps Closed (λ m w. w)))
        λ _.
          Triple-bind _ _ (λ e m. Closed m × IsOf request e)
            (Triple-weaken _ _ _ _ (evidence_gate-Reads Closed (λ m w. w) runtime request)
              (λ m p. p) (λ e m q. (q.0, (q.1.0, q.1.1))) (λ x m p. tt))
            λ evidence. record { at = λ m (w, i). (planned request evidence i).at m w }

  locked :
      {A : Type 0} {Q : A → Machine → Type 0} (mode : Text) (body : Call A)
      → Triple Closed body Q Anything
      → Triple Closed (spool_lock mode body) Q Anything
  unfolding spool_lock set_files
  locked mode body k =
      Triple-bind _ _ (λ _. Closed) (kept (ensure-Keeps Closed _ _))
        λ _.
          Triple-bind _ _ (λ _. Closed) (kept (check-Keeps Closed _ _))
            λ _.
              Triple-bind _ _ (λ _. Closed)
                (kept (open_lock_file-Keeps Closed (λ m w. w) (λ m w. w) (λ m path i e w. w)))
                λ _.
                  Triple-bind _ _ (λ _. Closed)
                    (kept (acquired-Keeps Closed (λ m w. w) (λ m w. w) (λ m path i e w. w))) λ _. k

  pub opened :
      (request : ProcessRequest)
      → Triple Closed (process_artifact runtime request) (Answers request) Anything
  unfolding process_artifact
  opened request =
      Triple-bind _ _ (λ _. Closed) (kept (attempt-Keeps Closed _))
        λ _.
          Triple-bind _ _ (λ _. Closed) (kept (check-Keeps Closed _ _))
            λ _. locked (text "exclusive") _ (
              Triple-bind _ _ (λ _. Closed) (kept (connect-Keeps Closed (λ m w. w)))
                λ _. Triple-finally _ rollback (connected request))

  -- However a run ends, no transaction is open.
  pub process_artifact-Closed :
      (request : ProcessRequest) → Keeps Closed (process_artifact runtime request)
  unfolding process_artifact spool_lock set_files
  process_artifact-Closed request = Keeps-bind _ _ (attempt-Keeps Closed _) λ _.
      Keeps-bind _ _ (check-Keeps Closed _ _) λ _. Keeps-bind _ _ (ensure-Keeps Closed _ _) λ _.
        Keeps-bind _ _ (check-Keeps Closed _ _) λ _.
          Keeps-bind _ _ (open_lock_file-Keeps Closed (λ m w. w) (λ m w. w) (λ m path i e w. w))
            λ _.
              Keeps-bind _ _ (acquired-Keeps Closed (λ m w. w) (λ m w. w) (λ m path i e w. w)) λ _.
                Keeps-bind _ _ (connect-Keeps Closed (λ m w. w)) λ _. Triple-finally _ rollback (
                  Triple-weaken _ _ _ _ (Triple-any (process_connected runtime request)) (λ m p. tt)
                    (λ a m u. refl) (λ x m u. refl))

-- With no transaction open at the start: if process_artifact returns, created or existing, then the
-- plan is the one that plan_derivation gives for evidence of the requested artifact, the report and
-- the manifest of the plan stand at their names with the planned bytes and digests, and the committed
-- tables have the COMPLETE job with the planned output, the planned artifact and its lineage. If it
-- raises, then no transaction is left open.
pub process_artifact-Settled :
    (runtime : Runtime) (request : ProcessRequest) (m : Machine)
    → m.working ≡ none
    → Post
        (λ (r : Disposition × DerivedPlan) m'.
          (evidence : InputEvidence) × IsOf request evidence
          × (plan_derivation runtime evidence request.profile ≡ ok r.1)
          × Settled runtime r.1 evidence m')
        (λ _ m'. m'.working ≡ none)
        (process_artifact runtime request m)
process_artifact-Settled runtime request m w =
    (Triple-weaken _ _ _ _
        (Triple-and (opened runtime request) (process_artifact-Closed runtime request))
        (λ s p. (p, p)) (λ r s q. q.0) (λ x s q. q.1)).at
      m w
