-- ===== src/Processor/Transactions/Completing.antt =====
-- `_finalize_complete` of components/processor-worker/apps/edge_agent/process.py: all of its rows are
-- committed, or none.
pub mod Rows
use edge_evidence_showcase.Prelude.{
  ℕ, ◌≡◌, refl, sym, ◌∙◌, ap, Bool, true, false, not, Option-cases, inl, inr, Option, none, some,
  List, [], ◌∷◌, ◌++◌, Text, text_eq, text_eq_refl, arith, if◌then◌else◌,
}
use edge_evidence_showcase.Exec.{pure, ◌>>◌}
use edge_evidence_showcase.Exec.Triple.{
  Post, Triple, Triple-pure, Triple-if, Triple-bind, Triple-catch, Triple-weaken,
}
use edge_evidence_showcase.Processor.Runtime.{
  SqliteError, Error, failure, lock_busy, processing, sqlite, os_error, overflow, collision, killed,
}
use edge_evidence_showcase.Processor.Report.{relation_type}
use edge_evidence_showcase.Processor.Ledger.{
  ArtifactFacts, Artifact, Job, Lineage, Ledger, find_artifact, find_job, find_lineage, facts_eq,
  is_prepared, completed, complete_jobs, complete_job,
}
use edge_evidence_showcase.Processor.Ledger.Steps.{
  adds_lineage, completes, none-some, some-same, insert_artifact_lem, insert_lineage_lem,
  LedgerStep-artifact, LedgerStep-lineage,
}
use edge_evidence_showcase.Processor.Machine.{Machine, execute, roll_back}
use edge_evidence_showcase.Processor.Plan.{InputEvidence, DerivedPlan, expected_facts}
use edge_evidence_showcase.Processor.Jobs.{
  Disposition, created, existing, derived_artifact, derived_lineage, read_job, is_relation,
  is_output, artifact_found, upsert_derived_artifact, lineage_found, upsert_lineage,
  transition_found, transition_job_complete, complete_failed, complete_rows, finalize_complete,
}
use edge_evidence_showcase.Processor.Stable.Staging.{look_at-Keeps}
use edge_evidence_showcase.Processor.Verified.{
  PlannedRows, facts_eq→eq, complete_state, is_output_lem, is_relation_lem,
}
use edge_evidence_showcase.Processor.Transactions.{
  Closed, Inside, Unchanged, begin-Inside, query-Inside, raise-Inside, execute-Inside,
  commit-Inside,
}
use edge_evidence_showcase.Processor.Transactions.Completing.Rows.{
  find_artifact-fresh, find_lineage-fresh, complete_job-find,
}

module _ (plan : DerivedPlan) (evidence : InputEvidence) (start : Ledger) where
  abbrev HasPlannedArtifact : Ledger → Type 0
  HasPlannedArtifact t =
      find_artifact plan.derived_artifact_id t.artifacts ≡ some (expected_facts plan evidence)

  abbrev HasPlannedLineage : Ledger → Type 0
  HasPlannedLineage t =
      find_lineage plan.derived_artifact_id t.artifact_lineage
      ≡ some (evidence.artifact_id, relation_type)

  -- The view of the transaction has the artifact, and then its lineage too.
  abbrev HasBoth : Ledger → Type 0
  HasBoth t = HasPlannedArtifact t × HasPlannedLineage t

  done :
      (Q R : Ledger → Type 0) (d : Disposition)
      → ((t : Ledger) → Q t → R t)
      → Triple {X = Error} (Inside start Q) (pure d) (λ _. Inside start R) (λ _. Unchanged start)
  done Q R d k = Triple-pure d (λ m (t, w, q, c). (t, w, k t q, c))

  -- A statement that writes, and its disposition.
  recorded :
      (Q R : Ledger → Type 0) (f : Ledger → Option Ledger) (d : Disposition)
      → ((t u : Ledger) → Q t → f t ≡ some u → R u)
      → Triple (Inside start Q) (execute f >> pure d) (λ _. Inside start R) (λ _. Unchanged start)
  recorded Q R f d k =
      Triple-bind _ _ _ (execute-Inside start Q f)
        λ _. Triple-pure d (λ m (u, w, (t, q, e), c). (u, w, k t u q e, c))

  abbrev FoundArtifact : Option ArtifactFacts → Ledger → Type 0
  FoundArtifact o t = Unit × (o ≡ find_artifact plan.derived_artifact_id t.artifacts)

  abbrev FoundLineage : Option (Text × Text) → Ledger → Type 0
  FoundLineage o t =
      HasPlannedArtifact t × (o ≡ find_lineage plan.derived_artifact_id t.artifact_lineage)

  artifact_found-Inside :
      (o : Option ArtifactFacts)
      → Triple
          (Inside start (FoundArtifact o))
          (artifact_found plan evidence o)
          (λ _. Inside start HasPlannedArtifact)
          (λ _. Unchanged start)
  unfolding artifact_found
  artifact_found-Inside (some facts) =
      Triple-if (facts_eq facts (expected_facts plan evidence)) _ _
        (λ e.
          done _ HasPlannedArtifact existing
            (λ t q. sym q.1 ∙ ap some (facts_eq→eq facts (expected_facts plan evidence) e)))
        (λ _. raise-Inside start _ _)
  artifact_found-Inside none = recorded (FoundArtifact none) HasPlannedArtifact _ created λ t u q e.
      rw (insert_artifact_lem (derived_artifact plan evidence) t u e) (
        find_artifact-fresh plan.derived_artifact_id t.artifacts (derived_artifact plan evidence)
          (sym q.1) (text_eq_refl plan.derived_artifact_id))

  lineage_found-Inside :
      (o : Option (Text × Text))
      → Triple
          (Inside start (FoundLineage o))
          (lineage_found plan evidence o)
          (λ _. Inside start HasBoth)
          (λ _. Unchanged start)
  unfolding lineage_found
  lineage_found-Inside (some row) =
      Triple-if (is_relation evidence row) _ _
        (λ e.
          done _ HasBoth existing
            (λ t q. (q.0, sym q.1 ∙ ap some (is_relation_lem evidence row e))))
        (λ _. raise-Inside start _ _)
  lineage_found-Inside none = recorded (FoundLineage none) HasBoth _ created λ t u q e. (
    LedgerStep-artifact t u plan.derived_artifact_id _ (adds_lineage _ e) q.0,
    rw (insert_lineage_lem (derived_lineage plan evidence) t u e) (
        find_lineage-fresh plan.derived_artifact_id t.artifact_lineage
          (derived_lineage plan evidence) (sym q.1) (text_eq_refl plan.derived_artifact_id)),
  )

  completed_rows :
      (j : Job) (now : ℕ) (t u : Ledger)
      → HasBoth t × (some j ≡ find_job plan.job_id t.processing_jobs)
      → complete_job plan.job_id plan.derived_artifact_id now t ≡ some u
      → PlannedRows plan evidence u
  unfolding completed
  completed_rows j now t u q e =
      let st = completes plan.job_id plan.derived_artifact_id now e in
      (
        (
          completed plan.derived_artifact_id now j,
          complete_job-find plan.job_id plan.derived_artifact_id now t u j e (sym q.1),
          refl,
          refl,
        ),
        LedgerStep-artifact t u plan.derived_artifact_id _ st q.0.0,
        LedgerStep-lineage t u plan.derived_artifact_id _ st q.0.1,
      )

  transition_found-Inside :
      (o : Option Job)
      → Triple
          (Inside start (λ t. HasBoth t × (o ≡ find_job plan.job_id t.processing_jobs)))
          (transition_found plan o)
          (λ _. Inside start (PlannedRows plan evidence))
          (λ _. Unchanged start)
  unfolding transition_found
  transition_found-Inside none = raise-Inside start _ _
  transition_found-Inside (some j) =
      Triple-if (not (is_prepared j.state)) _ _
        (λ p.
          Triple-if (is_output plan j.output_artifact_id) _ _
            (λ e. done _ (PlannedRows plan evidence) existing (λ t q. (
              (
                j,
                sym q.1,
                complete_state j.state (ground arith),
                is_output_lem plan j.output_artifact_id e,
              ),
              q.0.0,
              q.0.1,
            )))
            (λ _. raise-Inside start _ _))
        (λ p.
          Triple-bind _ _ (λ now. Inside start _)
            (Triple-weaken _ _ _ _ (look_at-Keeps (Inside start _) _) (λ m q. q) (λ a m q. q)
              (λ x m (t, w, q, c). c))
            λ now. recorded _ (PlannedRows plan evidence) _ created (completed_rows j now))

  complete_rows-Inside :
      Triple
        (Inside start (λ _. Unit))
        (complete_rows plan evidence)
        (λ _ m. Closed m × PlannedRows plan evidence m.committed)
        (λ _. Unchanged start)
  unfolding complete_rows upsert_derived_artifact upsert_lineage transition_job_complete read_job
  complete_rows-Inside =
      Triple-bind _ _ (λ _. Inside start HasPlannedArtifact)
        (Triple-bind _ _ _ (query-Inside start (λ _. Unit) _) artifact_found-Inside)
        λ a.
          Triple-bind _ _ (λ _. Inside start HasBoth)
            (Triple-bind _ _ _ (query-Inside start HasPlannedArtifact _) lineage_found-Inside)
            λ l.
              Triple-bind _ _ (λ _. Inside start (PlannedRows plan evidence))
                (Triple-bind _ _ _ (query-Inside start HasBoth _) transition_found-Inside)
                λ j.
                  Triple-bind _ _ (λ _ m. Closed m × PlannedRows plan evidence m.committed)
                    (commit-Inside start (PlannedRows plan evidence)) λ _. Triple-pure _ (λ m q. q)

  -- The handlers raise, and change no committed table.
  handled :
      {A : Type 0} {R : A → Machine → Type 0} (x : Error)
      → Triple (Unchanged start) (complete_failed x) R (λ _. Unchanged start)
  unfolding complete_failed roll_back
  handled (sqlite SqliteError.integrity) = record { at = λ m q. q }
  handled (sqlite SqliteError.operational) = record { at = λ m q. q }
  handled (sqlite SqliteError.unspecified) = record { at = λ m q. q }
  handled (failure c) = record { at = λ m q. q }
  handled lock_busy = record { at = λ m q. q }
  handled (processing c) = record { at = λ m q. q }
  handled os_error = record { at = λ m q. q }
  handled overflow = record { at = λ m q. q }
  handled collision = record { at = λ m q. q }
  handled killed = record { at = λ m q. q }

  finalize_complete-Triple :
      Triple
        (λ m. Closed m × Unchanged start m)
        (finalize_complete plan evidence)
        (λ _ m. Closed m × PlannedRows plan evidence m.committed)
        (λ _. Unchanged start)
  unfolding finalize_complete
  finalize_complete-Triple =
      Triple-bind _ _ (λ _. Inside start (λ _. Unit))
        (Triple-weaken _ _ _ _ (begin-Inside start (λ _. Unit)) (λ m p. (p.0, p.1, tt)) (λ a m q. q)
          (λ x m q. q))
        λ _. Triple-catch _ complete_failed (λ _. Unchanged start) complete_rows-Inside handled

-- With no transaction open, whatever fails and wherever the process is killed: if _finalize_complete
-- returns, then the committed tables have the COMPLETE job with the planned output, the planned
-- artifact and its lineage; if it raises, then the committed tables are those of before.
pub finalize_complete-atomic :
    (plan : DerivedPlan) (evidence : InputEvidence) (m : Machine)
    → m.working ≡ none
    → Post
        (λ _ m'. (m'.working ≡ none) × PlannedRows plan evidence m'.committed)
        (λ _ m'. m'.committed ≡ m.committed)
        (finalize_complete plan evidence m)
finalize_complete-atomic plan evidence m w =
    (finalize_complete-Triple plan evidence m.committed).at m (w, refl)
