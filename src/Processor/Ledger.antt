-- ===== src/Processor/Ledger.antt =====
-- The tables of the processing authority with their constraints: artifacts of migration 1,
-- processing_jobs and artifact_lineage of migration 4
-- (components/processor-worker/packages/database/migrations.py). Time stamps of the database are
-- stamps of a clock, and recorded_at, which no code reads, is left out. The table of assertions is there,
-- as it is from migration 7 on.
pub mod Steps
pub mod Sound
use edge_evidence_showcase.Prelude.{
  ℕ, Bool, true, false, not, ◌&&◌, ◌||◌, Option, none, some, List, [], ◌∷◌, ◌++◌, Text, text,
  text_eq, length, any, leb, ◌==◌, if◌then◌else◌,
}
use edge_evidence_showcase.Contracts.{matches_sha256}
use edge_evidence_showcase.Processor.Json.{has_text}
use edge_evidence_showcase.Processor.Instants.{id_prefix}
use edge_evidence_showcase.Processor.Manifest.{artifact_kinds}
use edge_evidence_showcase.Processor.Report.{
  processor_name, processor_version, output_contract, artifact_kind, relation_type,
}
unfoldable pub use edge_evidence_showcase.Processor.Rows.{
  find_artifact, find_job, find_lineage, facts_eq, identity_eq,
}
pub use edge_evidence_showcase.Processor.Rows.{
  ArtifactFacts, Artifact, JobIdentity, JobState, Job, Lineage, Assertion, Ledger, prepared,
  complete,
}

-- The CHECKs of artifacts.
unfoldable pub artifact_check : Artifact → Bool
unfolding has_text
artifact_check a =
    text_eq a.artifact_id (id_prefix ++ a.facts.digest_value)
    && leb 1 (length a.facts.source_id)
    && leb (length a.facts.source_id) 128
    && has_text a.facts.artifact_kind artifact_kinds
    && leb 1 (length a.facts.media_type)
    && leb (length a.facts.media_type) 255
    && text_eq a.facts.digest_algorithm (text "sha256")
    && length a.facts.digest_value == 64
    && leb 1 (length a.facts.storage_uri)
    && leb 1 (length a.facts.manifest_uri)
    && length a.facts.manifest_sha256 == 64

-- The primary key and the UNIQUE columns.
unfoldable pub collides : Artifact → Artifact → Bool
collides a b =
    text_eq b.artifact_id a.artifact_id
    || text_eq b.facts.digest_value a.facts.digest_value
    || text_eq b.facts.storage_uri a.facts.storage_uri
    || text_eq b.facts.manifest_uri a.facts.manifest_uri

-- INSERT INTO artifacts
unfoldable pub insert_artifact : Artifact → Ledger → Option Ledger
unfolding artifact_check collides
insert_artifact a db =
    if artifact_check a && not (any (collides a) db.artifacts)
    then some (record db { artifacts = db.artifacts ++ a ∷ [] })
    else none

is_some : {A : Type 0} → Option A → Bool
is_some none = false
is_some (some _) = true

-- REFERENCES artifacts(artifact_id)
unfoldable pub has_artifact : Text → Ledger → Bool
unfolding is_some find_artifact
has_artifact id db = is_some (find_artifact id db.artifacts)

-- The exact columns of each state.
unfoldable pub columns_check : JobState → Option Text → Option ℕ → Bool
unfolding is_some
columns_check prepared output completed_at = not (is_some output) && not (is_some completed_at)
columns_check complete output completed_at = is_some output && is_some completed_at

unfoldable pub output_check : Option Text → Ledger → Bool
unfolding has_artifact
output_check none db = true
output_check (some id) db = has_artifact id db

-- The CHECKs and foreign keys of processing_jobs.
unfoldable pub job_check : Job → Ledger → Bool
unfolding columns_check output_check has_artifact
job_check j db =
    has_artifact j.identity.input_artifact_id db
    && text_eq j.identity.processor_name processor_name
    && text_eq j.identity.processor_version processor_version
    && text_eq j.identity.output_contract output_contract
    && matches_sha256 j.identity.parameters_sha256
    && output_check j.output_artifact_id db
    && columns_check j.state j.output_artifact_id j.completed_at

-- The primary key and UNIQUE (input, processor, version, contract, parameters_sha256).
unfoldable pub same_work : Job → Job → Bool
same_work a b =
    text_eq b.job_id a.job_id
    || (text_eq b.identity.input_artifact_id a.identity.input_artifact_id
        && text_eq b.identity.processor_name a.identity.processor_name
        && text_eq b.identity.processor_version a.identity.processor_version
        && text_eq b.identity.output_contract a.identity.output_contract
        && text_eq b.identity.parameters_sha256 a.identity.parameters_sha256)

-- INSERT INTO processing_jobs
unfoldable pub insert_job : Job → Ledger → Option Ledger
unfolding job_check same_work
insert_job j db =
    if job_check j db && not (any (same_work j) db.processing_jobs)
    then some (record db { processing_jobs = db.processing_jobs ++ j ∷ [] })
    else none

-- (SELECT artifact_kind FROM artifacts WHERE artifact_id = …) IS kind
unfoldable pub has_kind : Text → Option ArtifactFacts → Bool
has_kind kind none = false
has_kind kind (some facts) = text_eq facts.artifact_kind kind

-- The CHECKs of artifact_lineage, its foreign keys and the trigger on the kinds.
unfoldable pub lineage_check : Lineage → Ledger → Bool
unfolding has_kind
lineage_check l db =
    text_eq l.relation relation_type
    && not (text_eq l.child_artifact_id l.parent_artifact_id)
    && has_kind (text "raw_media") (find_artifact l.parent_artifact_id db.artifacts)
    && has_kind artifact_kind (find_artifact l.child_artifact_id db.artifacts)

-- INSERT INTO artifact_lineage
unfoldable pub insert_lineage : Lineage → Ledger → Option Ledger
unfolding lineage_check
insert_lineage l db =
    if lineage_check l db
      && not (any (λ m. text_eq m.child_artifact_id l.child_artifact_id) db.artifact_lineage)
    then some (record db { artifact_lineage = db.artifact_lineage ++ l ∷ [] })
    else none

unfoldable pub is_prepared : JobState → Bool
is_prepared prepared = true
is_prepared complete = false

-- The lineage of an output names an input as its parent.
unfoldable pub lineage_matches : Option (Text × Text) → Text → Bool
lineage_matches none parent = false
lineage_matches (some (p, r)) parent = text_eq p parent && text_eq r relation_type

unfoldable pub output_lineage : Option Text → Text → Ledger → Bool
unfolding lineage_matches
output_lineage none parent db = false
output_lineage (some child) parent db =
    lineage_matches (find_lineage child db.artifact_lineage) parent

-- The trigger processing_jobs_guard_update lets an update pass.
unfoldable pub guard_job : Job → Job → Ledger → Bool
unfolding is_prepared identity_eq output_lineage
guard_job old new db =
    is_prepared old.state
    && not (is_prepared new.state)
    && text_eq new.job_id old.job_id
    && identity_eq new.identity old.identity
    && new.created_at == old.created_at
    && output_lineage new.output_artifact_id new.identity.input_artifact_id db

-- The row after UPDATE … SET state = 'COMPLETE', output_artifact_id = ?, completed_at = now.
unfoldable pub completed : Text → ℕ → Job → Job
completed output now j = record j {
  state = complete;
  output_artifact_id = some output;
  completed_at = some now;
}

-- The update of the rows WHERE job_id = ?
unfoldable pub complete_jobs : Text → Text → ℕ → Ledger → List Job → Option (List Job)
unfolding guard_job completed job_check
complete_jobs job_id output now db [] = some []
complete_jobs job_id output now db (j ∷ js) =
    let rest = complete_jobs job_id output now db js in
    elim rest [
      | none ↦ none
      | some js' ↦
          if not (text_eq j.job_id job_id)
          then some (j ∷ js')
          else if guard_job j (completed output now j) db && job_check (completed output now j) db
          then some (completed output now j ∷ js')
          else none
    ]

-- UPDATE processing_jobs
unfoldable pub complete_job : Text → Text → ℕ → Ledger → Option Ledger
unfolding complete_jobs
complete_job job_id output now db = elim (complete_jobs job_id output now db db.processing_jobs) [
  | none ↦ none
  | some js ↦ some (record db { processing_jobs = js })
]
