-- ===== src/Processor/Process.antt =====
-- `process_artifact` of components/processor-worker/apps/edge_agent/process.py, under the spool
-- lock. Opening the database and its PRAGMAs are statements without an effect.
use edge_evidence_showcase.Prelude.{
  ℕ, Bool, false, not, ◌&&◌, Option, none, some, List, [], ◌∷◌, Text, text, all, compare,
  if◌then◌else◌,
}
use edge_evidence_showcase.Prelude.Sorting.{sorted}
use edge_evidence_showcase.Exec.{pure, raise, catch, finally, ◌>>=◌, ◌>>◌}
use edge_evidence_showcase.Processor.History.{accepts_from}
use edge_evidence_showcase.Processor.Json.{has_text}
use edge_evidence_showcase.Processor.Runtime.{Error, failure, sqlite, Runtime}
use edge_evidence_showcase.Processor.Ledger.{
  ArtifactFacts, Job, Ledger, find_artifact, find_lineage, facts_eq, is_prepared,
}
use edge_evidence_showcase.Processor.Machine.{Call, attempt, ensure, check, query, rollback}
use edge_evidence_showcase.Processor.Locking.{spool_lock}
use edge_evidence_showcase.Processor.Plan.{
  ProcessRequest, validate_request, InputEvidence, DerivedPlan, expected_facts, plan_derivation,
}
use edge_evidence_showcase.Processor.Evidence.{evidence_gate}
use edge_evidence_showcase.Processor.Jobs.{
  Disposition, created, existing, read_job, create_or_adopt_prepared, is_relation, is_output,
  finalize_complete, require_unambiguous_input_assertion,
}
use edge_evidence_showcase.Processor.Publishing.{
  preflight_processing_paths, produce_and_publish, verify_final_pair,
}

-- except sqlite3.Error: raise ProcessError(code=7)
unfoldable pub as_unopened : Error → Call Unit
as_unopened (sqlite e) = raise (failure 7)
as_unopened x = raise x

-- _connect; the PRAGMAs stand outside the handler
unfoldable pub connect : Call Unit
connect = do catch (query (λ _. tt)) as_unopened; query (λ _. tt); query (λ _. tt); query (λ _. tt)

abbrev pub v4_tables : List Text
v4_tables =
    text "processing_jobs"
    ∷ text "artifact_lineage"
    ∷ text "artifacts"
    ∷ text "schema_migrations"
    ∷ []

-- recorded_history
unfoldable pub recorded_history : Ledger → List (ℕ × Text)
recorded_history db = sorted (λ m n. compare m.0 n.0) db.schema_migrations

-- _require_v4
unfoldable pub require_v4 : Call Unit
require_v4 = do
  present ← query (λ db. db.table_names)
  ensure (all (λ t. has_text t present) v4_tables) (failure 7)
  recorded ← query recorded_history
  ensure (accepts_from recorded 4) (failure 7)

unfoldable pub is_complete : Option Job → Bool
unfolding is_prepared
is_complete none = false
is_complete (some j) = not (is_prepared j.state)

-- job is COMPLETE with the output of the plan
unfoldable pub job_agrees : DerivedPlan → Option Job → Bool
unfolding is_output is_prepared
job_agrees plan none = false
job_agrees plan (some j) = not (is_prepared j.state) && is_output plan j.output_artifact_id

unfoldable pub artifact_agrees : DerivedPlan → InputEvidence → Option ArtifactFacts → Bool
unfolding facts_eq expected_facts
artifact_agrees plan evidence none = false
artifact_agrees plan evidence (some facts) = facts_eq facts (expected_facts plan evidence)

unfoldable pub lineage_agrees : InputEvidence → Option (Text × Text) → Bool
unfolding is_relation
lineage_agrees evidence none = false
lineage_agrees evidence (some row) = is_relation evidence row

module _ (runtime : Runtime) where
  -- _verify_authority
  unfoldable pub verify_authority : DerivedPlan → InputEvidence → Call Unit
  verify_authority plan evidence = do
    verify_final_pair runtime plan evidence
    job ← read_job plan.job_id
    ensure (job_agrees plan job) (failure 6)
    artifact ← query (λ db. find_artifact plan.derived_artifact_id db.artifacts)
    ensure (artifact_agrees plan evidence artifact) (failure 6)
    lineage ← query (λ db. find_lineage plan.derived_artifact_id db.artifact_lineage)
    ensure (lineage_agrees evidence lineage) (failure 6)

  -- The steps behind the fast path for a COMPLETE job.
  unfoldable pub derive : DerivedPlan → InputEvidence → Call (Disposition × DerivedPlan)
  derive plan evidence = do
    require_unambiguous_input_assertion evidence.artifact_id
    preflight_processing_paths runtime plan
    create_or_adopt_prepared plan evidence
    produce_and_publish runtime plan
    verify_final_pair runtime plan evidence
    finalize_complete plan evidence
    verify_authority plan evidence
    pure (created, plan)

  unfoldable pub adopt_or_derive :
      DerivedPlan → InputEvidence → Option Job → Call (Disposition × DerivedPlan)
  adopt_or_derive plan evidence job =
      if is_complete job
      then verify_authority plan evidence >> pure (existing, plan)
      else derive plan evidence

  -- The block under the lock, behind the opened connection.
  unfoldable pub process_connected : ProcessRequest → Call (Disposition × DerivedPlan)
  process_connected request = do
    require_v4
    evidence ← evidence_gate runtime request
    plan ← attempt (plan_derivation runtime evidence request.profile)
    job ← read_job plan.job_id
    adopt_or_derive plan evidence job

  unfoldable pub process_artifact : ProcessRequest → Call (Disposition × DerivedPlan)
  process_artifact request = do
    attempt (validate_request request)
    check (λ m. m.root_exists) (failure 5)
    spool_lock (text "exclusive") (connect >> finally (process_connected request) rollback)
