-- ===== src/Processor/Jobs.antt =====
-- The job authority of components/processor-worker/apps/edge_agent/process.py: rows are adopted or
-- compared, and a job goes from PREPARED to COMPLETE with its artifact and its lineage. The crash
-- barriers do nothing in production.
use edge_evidence_showcase.Prelude.{
  ℕ, zero, suc, Bool, false, not, Option, none, some, List, [], ◌∷◌, Text, text_eq, if◌then◌else◌,
}
use edge_evidence_showcase.Exec.{pure, raise, catch, ◌>>=◌, ◌>>◌}
use edge_evidence_showcase.Processor.Runtime.{Error, failure, sqlite, SqliteError}
use edge_evidence_showcase.Processor.Report.{relation_type}
use edge_evidence_showcase.Processor.Ledger.{
  ArtifactFacts, Artifact, Lineage, Job, Assertion, prepared, find_artifact, find_job, find_lineage,
  facts_eq, identity_eq, insert_artifact, insert_job, insert_lineage, complete_job, is_prepared,
}
use edge_evidence_showcase.Processor.Machine.{
  Call, look_at, roll_back, query, execute, begin, commit,
}
use edge_evidence_showcase.Processor.Plan.{InputEvidence, DerivedPlan, job_identity, expected_facts}

pub data Disposition : Type 0 where
  created existing : Disposition

-- _read_job
unfoldable pub read_job : Text → Call (Option Job)
read_job job_id = query (λ db. find_job job_id db.processing_jobs)

-- The row that _create_or_adopt_prepared inserts.
unfoldable pub prepared_job : DerivedPlan → InputEvidence → ℕ → Job
unfolding job_identity
prepared_job plan evidence now = record {
  job_id = plan.job_id;
  identity = job_identity plan evidence;
  state = prepared;
  output_artifact_id = none;
  created_at = now;
  completed_at = none;
}

unfoldable pub adopt_or_insert : DerivedPlan → InputEvidence → Option Job → Call Disposition
adopt_or_insert plan evidence (some j) =
    roll_back
    >> (if identity_eq j.identity (job_identity plan evidence)
        then pure existing
        else raise (failure 4))
adopt_or_insert plan evidence none = do
  now ← look_at (λ m. m.clock)
  execute (insert_job (prepared_job plan evidence now))
  commit
  pure created

unfoldable pub prepared_failed : {A : Type 0} → Error → Call A
prepared_failed (sqlite SqliteError.integrity) = roll_back >> raise (failure 4)
prepared_failed (sqlite SqliteError.operational) = roll_back >> raise (failure 7)
prepared_failed (sqlite SqliteError.unspecified) = roll_back >> raise (failure 7)
prepared_failed x = raise x

-- _create_or_adopt_prepared; BEGIN IMMEDIATE stands outside the handlers.
unfoldable pub create_or_adopt_prepared : DerivedPlan → InputEvidence → Call Disposition
create_or_adopt_prepared plan evidence =
    begin >> catch (read_job plan.job_id >>= adopt_or_insert plan evidence) prepared_failed

-- The rows that a derivation inserts.
abbrev pub derived_artifact : DerivedPlan → InputEvidence → Artifact
derived_artifact plan evidence = record {
  artifact_id = plan.derived_artifact_id;
  facts = expected_facts plan evidence;
}

abbrev pub derived_lineage : DerivedPlan → InputEvidence → Lineage
derived_lineage plan evidence = record {
  child_artifact_id = plan.derived_artifact_id;
  parent_artifact_id = evidence.artifact_id;
  relation = relation_type;
}

unfoldable pub artifact_found :
    DerivedPlan → InputEvidence → Option ArtifactFacts → Call Disposition
artifact_found plan evidence (some facts) =
    if facts_eq facts (expected_facts plan evidence) then pure existing else raise (failure 4)
artifact_found plan evidence none =
    execute (insert_artifact (derived_artifact plan evidence)) >> pure created

-- _upsert_derived_artifact
unfoldable pub upsert_derived_artifact : DerivedPlan → InputEvidence → Call Disposition
upsert_derived_artifact plan evidence =
    query (λ db. find_artifact plan.derived_artifact_id db.artifacts)
    >>= artifact_found plan evidence

-- tuple(row) != (evidence.artifact_id, RELATION_TYPE)
unfoldable pub is_relation : InputEvidence → Text × Text → Bool
is_relation evidence (parent, relation) =
    if text_eq parent evidence.artifact_id then text_eq relation relation_type else false

unfoldable pub lineage_found : DerivedPlan → InputEvidence → Option (Text × Text) → Call Disposition
lineage_found plan evidence (some row) =
    if is_relation evidence row then pure existing else raise (failure 4)
lineage_found plan evidence none =
    execute (insert_lineage (derived_lineage plan evidence)) >> pure created

-- _upsert_lineage
unfoldable pub upsert_lineage : DerivedPlan → InputEvidence → Call Disposition
upsert_lineage plan evidence =
    query (λ db. find_lineage plan.derived_artifact_id db.artifact_lineage)
    >>= lineage_found plan evidence

-- output_artifact_id == plan.derived_artifact_id
unfoldable pub is_output : DerivedPlan → Option Text → Bool
is_output plan none = false
is_output plan (some id) = text_eq id plan.derived_artifact_id

unfoldable pub transition_found : DerivedPlan → Option Job → Call Disposition
transition_found plan none = raise (failure 6)
transition_found plan (some j) =
    if not (is_prepared j.state)
    then (if is_output plan j.output_artifact_id then pure existing else raise (failure 6))
    else do
      now ← look_at (λ m. m.clock)
      execute (complete_job plan.job_id plan.derived_artifact_id now)
      pure created

-- _transition_job_complete
unfoldable pub transition_job_complete : DerivedPlan → Call Disposition
transition_job_complete plan = read_job plan.job_id >>= transition_found plan

unfoldable pub complete_failed : {A : Type 0} → Error → Call A
complete_failed (failure code) = roll_back >> raise (failure code)
complete_failed (sqlite SqliteError.integrity) = roll_back >> raise (failure 6)
complete_failed (sqlite SqliteError.operational) = roll_back >> raise (failure 7)
complete_failed (sqlite SqliteError.unspecified) = roll_back >> raise (failure 7)
complete_failed x = raise x

-- The statements of the COMPLETE transaction.
unfoldable pub complete_rows :
    DerivedPlan → InputEvidence → Call (Disposition × Disposition × Disposition)
complete_rows plan evidence = do
  artifact_state ← upsert_derived_artifact plan evidence
  lineage_state ← upsert_lineage plan evidence
  job_state ← transition_job_complete plan
  commit
  pure (artifact_state, lineage_state, job_state)

-- _finalize_complete; BEGIN IMMEDIATE stands outside the handlers.
unfoldable pub finalize_complete :
    DerivedPlan → InputEvidence → Call (Disposition × Disposition × Disposition)
finalize_complete plan evidence = begin >> catch (complete_rows plan evidence) complete_failed

-- SELECT count(*) FROM capture_occurrence_assertions WHERE artifact_id = ?
unfoldable pub count_assertions : Text → List Assertion → ℕ
count_assertions id [] = 0
count_assertions id (a ∷ more) =
    let rest = count_assertions id more in if text_eq a.artifact_id id then suc rest else rest

unfoldable pub unambiguous : ℕ → Call Unit
unambiguous zero = raise (failure 6)
unambiguous (suc zero) = pure tt
unambiguous (suc (suc n)) = raise (failure 4)

-- _require_unambiguous_input_assertion
unfoldable pub require_unambiguous_input_assertion : Text → Call Unit
require_unambiguous_input_assertion id =
    query (λ db. count_assertions id db.capture_occurrence_assertions) >>= unambiguous
