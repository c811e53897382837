-- ===== src/Processor/Catchup.antt =====
-- components/processor-worker/apps/processor_worker/worker.py: the snapshot of eligible recordings
-- and the bounded run over it.
pub mod Candidates
use edge_evidence_showcase.Prelude.{
  ℕ, suc, ◌+◌, ◌-◌, Bool, ◌&&◌, Option, none, some, List, [], ◌∷◌, Text, text, String, text_eq,
  text_compare, all, keep, length, ◌==◌, if◌then◌else◌,
}
use edge_evidence_showcase.Prelude.Sorting.{sorted}
use edge_evidence_showcase.Exec.{
  Result, ok, err, Exec, pure, raise, lift, gets, finally, and_then, ◌>>=◌, ◌>>◌,
}
use edge_evidence_showcase.Processor.History.{accepts_from}
use edge_evidence_showcase.Processor.Json.{has_text}
use edge_evidence_showcase.Processor.Runtime.{Error, failure, lock_busy, sqlite, killed, Runtime}
use edge_evidence_showcase.Processor.Report.{
  processor_name, processor_version, output_contract, integrity_profile, canonical_parameters,
  parameters_sha256, job_id_for,
}
use edge_evidence_showcase.Processor.Ledger.{
  Artifact, JobIdentity, JobState, prepared, complete, Job, Ledger, find_job, identity_eq,
}
use edge_evidence_showcase.Processor.Machine.{Machine, Call, query, rollback}
use edge_evidence_showcase.Processor.Jobs.{Disposition, count_assertions}
use edge_evidence_showcase.Processor.Process.{recorded_history, process_artifact}
use edge_evidence_showcase.Processor.Plan.{DerivedPlan}
unfoldable pub use edge_evidence_showcase.Processor.Catchup.Candidates.{
  finding, renamed_result, named, connect_readonly, require_authority, find_identity, keyed_state,
  identified_state, stored_state, foreign_result, eligible,
}
pub use edge_evidence_showcase.Processor.Catchup.Candidates.{
  WorkerError, PriorState, Candidate, RunSummary, renamed, required_tables, missing_job,
  prepared_job, complete_job,
}
use edge_evidence_showcase.Processor.Catchup.Candidates.{
  Work, state_of, is_eligible, worker_error, foreign,
}

-- _finding_for_processing_error
unfoldable pub finding_for : ℕ → Text
finding_for code =
    if code == 2
    then text "processing_invalid_argument"
    else if code == 3
    then text "processing_prerequisite_missing"
    else if code == 4
    then text "processing_identity_conflict"
    else if code == 5
    then text "processing_filesystem_failure"
    else if code == 6
    then text "processing_evidence_failure"
    else if code == 7
    then text "processing_database_failure"
    else text "processing_failure"

-- The handlers of _process_candidate. A killed process raises no exception.
unfoldable pub candidate_failed : Error → WorkerError
unfolding finding_for finding
candidate_failed (failure code) = worker_error (finding_for code) code
candidate_failed killed = foreign killed
candidate_failed x = finding "processing_internal_failure" 7

pub data Outcome : Type 0 where
  done deferred : Outcome

unfoldable pub outcome_of :
    Result Error (Disposition × DerivedPlan) × Machine → Result WorkerError Outcome × Machine
unfolding candidate_failed
outcome_of (ok a, m) = (ok done, m)
outcome_of (err lock_busy, m) = (ok deferred, m)
outcome_of (err x, m) = (err (candidate_failed x), m)

-- One more of the count that the prior state names.
unfoldable pub counted : PriorState → RunSummary → RunSummary
counted missing_job s = record s { newly_completed = suc s.newly_completed }
counted prepared_job s = record s { prepared_resumed = suc s.prepared_resumed }
counted complete_job s = record s { already_complete = suc s.already_complete }

unfoldable pub completed_count : RunSummary → ℕ
completed_count s = s.already_complete + s.prepared_resumed + s.newly_completed

-- The summary behind the loop.
unfoldable pub summary : ℕ → RunSummary → RunSummary
unfolding completed_count
summary eligible_count s =
    let remaining = eligible_count - completed_count s in
    record s {
      snapshot_eligible = eligible_count;
      remaining = remaining;
      status = if remaining == 0 then text "pass" else text "deferred";
    }

abbrev pub no_counts : RunSummary
no_counts = record {
  snapshot_eligible = 0;
  already_complete = 0;
  prepared_resumed = 0;
  newly_completed = 0;
  deferred = 0;
  remaining = 0;
  status = [];
}

module _ (runtime : Runtime) where
  -- _expected_identity
  unfoldable pub expected_identity : Text → Result Error JobIdentity
  unfolding canonical_parameters parameters_sha256
  expected_identity artifact_id = and_then (canonical_parameters integrity_profile) λ params_json.
      and_then (parameters_sha256 runtime integrity_profile) λ params_sha. ok (record {
        input_artifact_id = artifact_id;
        processor_name = processor_name;
        processor_version = processor_version;
        output_contract = output_contract;
        parameters_json = params_json;
        parameters_sha256 = params_sha;
      })

  -- _job_state
  unfoldable pub job_state : Text → Text → Work PriorState
  unfolding job_id_for expected_identity foreign_result stored_state
  job_state artifact_id digest_hex = do
    expected_job_id ← lift (foreign_result (job_id_for runtime digest_hex integrity_profile))
    expected ← lift (foreign_result (expected_identity artifact_id))
    stored_state expected_job_id expected

  unfoldable pub candidates : List Artifact → Work (List Candidate)
  unfolding job_state
  candidates [] = pure []
  candidates (a ∷ more) = job_state a.artifact_id a.facts.digest_value >>= λ state.
      candidates more >>= λ rest. pure (
        record {
          artifact_id = a.artifact_id;
          digest_hex = a.facts.digest_value;
          prior_state = state;
        }
        ∷ rest)

  unfoldable pub snapshot : Work (List Candidate)
  unfolding connect_readonly require_authority query eligible candidates renamed_result named
  snapshot = do
    connect_readonly
    finally
        (require_authority
          >> renamed (named "database_integrity_failure") (query eligible)
          >>= candidates)
        rollback

  -- _process_candidate
  unfoldable pub process_candidate : Candidate → Work Outcome
  unfolding process_artifact outcome_of
  process_candidate c m = outcome_of (
      process_artifact runtime
        (record { input_artifact_id = c.artifact_id; profile = integrity_profile }) m)

  -- The loop of run, with its counts; a deferred candidate ends it.
  unfoldable pub run_loop : List Candidate → RunSummary → Work RunSummary
  unfolding process_candidate counted
  run_loop [] counts = pure counts
  run_loop (c ∷ more) counts = process_candidate c >>= λ outcome. elim outcome [
    | deferred ↦ pure (record counts { deferred = 1 })
    | done ↦ run_loop more (counted c.prior_state counts)
  ]

  unfoldable pub run : Work RunSummary
  unfolding snapshot run_loop summary finding
  run = do
    present ← gets (λ m. m.root_exists)
    if present then pure tt else raise (finding "spool_unavailable" 5)
    work ← snapshot
    counts ← run_loop work no_counts
    pure (summary (length work) counts)
