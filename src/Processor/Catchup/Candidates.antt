-- ===== src/Processor/Catchup/Candidates.antt =====
-- components/processor-worker/apps/processor_worker/worker.py: its errors, the authority of the
-- database, the state of a stored job and the eligible recordings.
use edge_evidence_showcase.Prelude.{
  ℕ, Bool, ◌&&◌, Option, none, some, List, [], ◌∷◌, Text, text, String, text_eq, text_compare, all,
  keep, ◌==◌, if◌then◌else◌,
}
use edge_evidence_showcase.Prelude.Sorting.{sorted}
use edge_evidence_showcase.Exec.{Result, ok, err, Exec, pure, raise, lift, ◌>>=◌, ◌>>◌}
use edge_evidence_showcase.Processor.History.{accepts_from}
use edge_evidence_showcase.Processor.Json.{has_text}
use edge_evidence_showcase.Processor.Runtime.{Error, sqlite}
use edge_evidence_showcase.Processor.Ledger.{
  Artifact, JobIdentity, JobState, prepared, complete, Job, Ledger, find_job, identity_eq,
}
use edge_evidence_showcase.Processor.Machine.{Machine, Call, query}
use edge_evidence_showcase.Processor.Jobs.{count_assertions}
use edge_evidence_showcase.Processor.Process.{recorded_history}

-- `worker_error` is ProcessorWorkerError, `foreign` an exception that passes through.
pub data WorkerError : Type 0 where
  worker_error : Text → ℕ → WorkerError
  foreign : Error → WorkerError

abbrev pub Work : Type 0 → Type 0
Work A = Exec Machine WorkerError A

unfoldable pub finding : String → ℕ → WorkerError
finding name code = worker_error (text name) code

-- MISSING | PREPARED | COMPLETE
pub data PriorState : Type 0 where
  missing_job prepared_job complete_job : PriorState

pub record Candidate : Type 0 where
  pub artifact_id : Text
  pub digest_hex : Text
  pub prior_state : PriorState

pub record RunSummary : Type 0 where
  pub snapshot_eligible : ℕ
  pub already_complete : ℕ
  pub prepared_resumed : ℕ
  pub newly_completed : ℕ
  pub deferred : ℕ
  pub remaining : ℕ
  pub status : Text

unfoldable pub renamed_result :
    {A : Type 0} → (Error → WorkerError) → Result Error A × Machine → Result WorkerError A × Machine
renamed_result f (ok a, m) = (ok a, m)
renamed_result f (err x, m) = (err (f x), m)

abbrev pub renamed : {A : Type 0} → (Error → WorkerError) → Call A → Work A
renamed f call m = renamed_result f (call m)

-- except sqlite3.Error: raise ProcessorWorkerError(name, code=7)
unfoldable pub named : String → Error → WorkerError
unfolding finding
named name (sqlite e) = finding name 7
named name x = foreign x

-- _connect_readonly; the three calls stand under one handler.
unfoldable pub connect_readonly : Work Unit
unfolding query renamed_result named
connect_readonly =
    renamed (named "database_unavailable") (query (λ _. tt) >> (query (λ _. tt) >> query (λ _. tt)))

abbrev pub required_tables : List Text
required_tables =
    text "artifacts" ∷ text "capture_occurrence_assertions" ∷ text "processing_jobs" ∷ []

-- _require_authority
unfoldable pub require_authority : Work Unit
unfolding query recorded_history accepts_from has_text renamed_result named finding
require_authority = do
  recorded ← renamed (named "database_integrity_failure") (query recorded_history)
  if accepts_from recorded 8 then pure tt else raise (finding "database_migration_required" 7)
  present ← renamed (named "database_integrity_failure") (query (λ db. db.table_names))
  if all (λ t. has_text t present) required_tables
      then pure tt
      else raise (finding "database_migration_required" 7)

unfoldable pub state_of : JobState → PriorState
state_of prepared = prepared_job
state_of complete = complete_job

-- WHERE input_artifact_id = ? AND … AND parameters_sha256 = ?
unfoldable pub find_identity : JobIdentity → List Job → Option Job
find_identity expected [] = none
find_identity expected (j ∷ js) =
    if text_eq j.identity.input_artifact_id expected.input_artifact_id
      && text_eq j.identity.processor_name expected.processor_name
      && text_eq j.identity.processor_version expected.processor_version
      && text_eq j.identity.output_contract expected.output_contract
      && text_eq j.identity.parameters_sha256 expected.parameters_sha256
    then some j
    else find_identity expected js

-- The row under the expected key.
unfoldable pub keyed_state : JobIdentity → Job → Result WorkerError PriorState
unfolding identity_eq state_of finding
keyed_state expected j =
    if identity_eq j.identity expected
    then ok (state_of j.state)
    else err (finding "processing_job_identity_conflict" 4)

-- The row of the same work.
unfoldable pub identified_state : Text → JobIdentity → Option Job → Result WorkerError PriorState
unfolding state_of finding
identified_state job_id expected none = ok missing_job
identified_state job_id expected (some j) =
    if text_eq j.job_id job_id && text_eq j.identity.parameters_json expected.parameters_json
    then ok (state_of j.state)
    else err (finding "processing_job_identity_conflict" 4)

-- The two queries of _job_state.
unfoldable pub stored_state : Text → JobIdentity → Work PriorState
unfolding query find_job keyed_state find_identity identified_state renamed_result named
stored_state job_id expected = do
  row ←
      renamed (named "database_integrity_failure")
        (query (λ db. find_job job_id db.processing_jobs))
  elim row [
    | some j ↦ lift (keyed_state expected j)
    | none ↦
        renamed (named "database_integrity_failure")
          (query (λ db. find_identity expected db.processing_jobs))
        >>= λ other. lift (identified_state job_id expected other)
  ]

unfoldable pub foreign_result : {A : Type 0} → Result Error A → Result WorkerError A
foreign_result (ok a) = ok a
foreign_result (err x) = err (foreign x)

-- a.artifact_kind = 'raw_media' AND a.media_type = 'video/mp4' … HAVING COUNT(*) = 1
unfoldable pub is_eligible : Ledger → Artifact → Bool
unfolding count_assertions
is_eligible db a =
    text_eq a.facts.artifact_kind (text "raw_media")
    && text_eq a.facts.media_type (text "video/mp4")
    && count_assertions a.artifact_id db.capture_occurrence_assertions == 1

-- The rows of the snapshot, ORDER BY artifact_id.
unfoldable pub eligible : Ledger → List Artifact
unfolding is_eligible
eligible db =
    sorted (λ a b. text_compare a.artifact_id b.artifact_id) (keep (is_eligible db) db.artifacts)
