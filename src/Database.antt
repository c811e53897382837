-- ===== src/Database.antt =====
-- The SQLite database of the replication worker, as migration 10 leaves it:
-- components/replication-worker/packages/database/replication_target_migration_v10.py.
-- Timestamps are stamps of a clock, which no code compares.
pub mod Schema
pub mod Session
pub mod Statements
pub mod Migrating
use edge_evidence_showcase.Prelude.{ℕ, Text, Option, List}
use edge_evidence_showcase.Contracts.Objects.{ReplicaObject}

-- A row of replica_targets.
pub record TargetRow : Type 0 where
  pub target_id : Text
  pub adapter_kind : Text
  pub marker_sha256 : Text
  pub created_at : ℕ

-- CHECK (state IN ('PENDING', 'VERIFIED'))
pub data ReplicaState : Type 0 where
  pending verified : ReplicaState

-- A row of replica_objects. Its first five columns are those of a `ReplicaObject`.
pub record ReplicaRow : Type 0 where
  pub object : ReplicaObject
  pub open object use *
  pub state : ReplicaState
  pub attempt_count : ℕ
  pub last_error : Option Text
  pub created_at : ℕ
  pub verified_at : Option ℕ

-- The columns of artifacts that the worker reads.
pub record ArtifactRow : Type 0 where
  pub artifact_id : Text
  pub storage_uri : Text
  pub byte_size : ℕ
  pub digest_value : Text
  pub manifest_uri : Text
  pub manifest_sha256 : Text

-- The columns of capture_occurrence_assertions that the worker reads.
pub record AssertionRow : Type 0 where
  pub occurrence_id : Text
  pub manifest_uri : Text
  pub manifest_sha256 : Text

-- The columns of recording_imports that the worker reads.
pub record RecordingRow : Type 0 where
  pub recording_id : Text
  pub storage_uri : Text
  pub byte_size : ℕ
  pub digest_value : Text
  pub state : Text

pub record Tables : Type 0 where
  pub schema_migrations : List (ℕ × Text)
  pub replica_targets : List TargetRow
  pub replica_objects : List ReplicaRow
  pub artifacts : List ArtifactRow
  pub capture_occurrence_assertions : List AssertionRow
  pub recording_imports : List RecordingRow
