-- ===== src/Processor/Rows.antt =====
-- The rows of the tables that the processor worker uses (components/processor-worker,
-- packages/database/migrations.py), and how it finds them.
use edge_evidence_showcase.Prelude.{
  ℕ, Bool, ◌&&◌, Option, none, some, List, [], ◌∷◌, Text, text_eq, ◌==◌, if◌then◌else◌,
}

-- The columns of artifacts behind the key.
pub record ArtifactFacts : Type 0 where
  pub source_id : Text
  pub artifact_kind : Text
  pub media_type : Text
  pub byte_size : ℕ
  pub digest_algorithm : Text
  pub digest_value : Text
  pub storage_uri : Text
  pub manifest_uri : Text
  pub manifest_sha256 : Text
  pub finalized_at : Text

pub record Artifact : Type 0 where
  pub artifact_id : Text
  pub facts : ArtifactFacts

-- The columns of processing_jobs that identify the work.
pub record JobIdentity : Type 0 where
  pub input_artifact_id : Text
  pub processor_name : Text
  pub processor_version : Text
  pub output_contract : Text
  pub parameters_json : List ℕ
  pub parameters_sha256 : Text

-- CHECK (state IN ('PREPARED', 'COMPLETE'))
pub data JobState : Type 0 where
  prepared complete : JobState

pub record Job : Type 0 where
  pub job_id : Text
  pub identity : JobIdentity
  pub state : JobState
  pub output_artifact_id : Option Text
  pub created_at : ℕ
  pub completed_at : Option ℕ

pub record Lineage : Type 0 where
  pub child_artifact_id : Text
  pub parent_artifact_id : Text
  pub relation : Text

-- The columns of capture_occurrence_assertions that the processor reads.
pub record Assertion : Type 0 where
  pub occurrence_id : Text
  pub artifact_id : Text

pub record Ledger : Type 0 where
  pub table_names : List Text
  pub schema_migrations : List (ℕ × Text)
  pub artifacts : List Artifact
  pub processing_jobs : List Job
  pub artifact_lineage : List Lineage
  pub capture_occurrence_assertions : List Assertion

-- SELECT … FROM artifacts WHERE artifact_id = ?
unfoldable pub find_artifact : Text → List Artifact → Option ArtifactFacts
find_artifact id [] = none
find_artifact id (a ∷ rest) =
    if text_eq a.artifact_id id then some a.facts else find_artifact id rest

-- SELECT … FROM processing_jobs WHERE job_id = ?
unfoldable pub find_job : Text → List Job → Option Job
find_job id [] = none
find_job id (j ∷ js) = if text_eq j.job_id id then some j else find_job id js

-- SELECT parent_artifact_id, relation_type FROM artifact_lineage WHERE child_artifact_id = ?
unfoldable pub find_lineage : Text → List Lineage → Option (Text × Text)
find_lineage child [] = none
find_lineage child (l ∷ ls) =
    if text_eq l.child_artifact_id child
    then some (l.parent_artifact_id, l.relation)
    else find_lineage child ls

unfoldable pub facts_eq : ArtifactFacts → ArtifactFacts → Bool
facts_eq a b =
    text_eq a.source_id b.source_id
    && text_eq a.artifact_kind b.artifact_kind
    && text_eq a.media_type b.media_type
    && a.byte_size == b.byte_size
    && text_eq a.digest_algorithm b.digest_algorithm
    && text_eq a.digest_value b.digest_value
    && text_eq a.storage_uri b.storage_uri
    && text_eq a.manifest_uri b.manifest_uri
    && text_eq a.manifest_sha256 b.manifest_sha256
    && text_eq a.finalized_at b.finalized_at

unfoldable pub identity_eq : JobIdentity → JobIdentity → Bool
identity_eq a b =
    text_eq a.input_artifact_id b.input_artifact_id
    && text_eq a.processor_name b.processor_name
    && text_eq a.processor_version b.processor_version
    && text_eq a.output_contract b.output_contract
    && text_eq a.parameters_json b.parameters_json
    && text_eq a.parameters_sha256 b.parameters_sha256
