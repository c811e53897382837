-- ===== src/Tests/Deriving.antt =====
-- A spool with one registered recording, and runs of the processor worker on it.
use edge_evidence_showcase.Prelude.{
  ℕ, zero, suc, ◌+◌, ◌%◌, true, Option, none, some, List, [], ◌∷◌, ◌++◌, Text, text, text_eq,
  length, ◌==◌, if◌then◌else◌,
}
use edge_evidence_showcase.Exec.{Result, ok, err}
use edge_evidence_showcase.Processor.History.{canonical_history}
use edge_evidence_showcase.Processor.Json.{Json, object, string, field, no_fields, serialize}
use edge_evidence_showcase.Processor.Runtime.{Runtime, profiled, Error}
use edge_evidence_showcase.Processor.Manifest.{
  manifest_fields, media_relative_path, manifest_relative_path, storage_uri,
}
use edge_evidence_showcase.Processor.Instants.{id_prefix}
use edge_evidence_showcase.Processor.Ledger.{Artifact, Ledger}
use edge_evidence_showcase.Processor.Machine.{regular, Machine}
use edge_evidence_showcase.Processor.Report.{integrity_profile, artifact_kind, media_type}
use edge_evidence_showcase.Processor.Plan.{
  ProcessRequest, InputEvidence, DerivedPlan, plan_derivation, complete_storage_uri,
}
use edge_evidence_showcase.Processor.Jobs.{Disposition}
use edge_evidence_showcase.Processor.Process.{process_artifact}

abbrev repeat : ℕ → ℕ → Text → Text
repeat c zero s = s
repeat c (suc n) s = c ∷ repeat c n s

-- A digest that tells lengths apart.
abbrev pub digest_of : List ℕ → Text
digest_of bytes = repeat b'0' 63 ((b'0' + length bytes % 10) ∷ [])

abbrev pub recording : List ℕ
recording = 1 ∷ 2 ∷ 3 ∷ []

abbrev pub recording_digest : Text
recording_digest = digest_of recording

abbrev pub finalized : Text
finalized = text "2026-08-04T10:00:10Z"

abbrev pub camera_name : Text
camera_name = text "camera-1"

abbrev pub recording_manifest : Json
recording_manifest = object (
    manifest_fields camera_name recording_digest (text "raw_media") (text "video/mp4") 3
      (storage_uri recording_digest) finalized no_fields)

abbrev pub recording_evidence : InputEvidence
recording_evidence = record {
  artifact_id = id_prefix ++ recording_digest;
  digest_hex = recording_digest;
  source_id = camera_name;
  media_type = text "video/mp4";
  byte_size = 3;
  manifest_sha256 = digest_of (serialize recording_manifest);
  finalized_at = finalized;
}

-- json.loads is needed for two documents only: the manifests of the recording and of its report, which
-- differ in their lengths.
abbrev sample_runtime_on : (List ℕ → Option Json) → Runtime
sample_runtime_on loads = record {
  sha256 = digest_of;
  uuid5 = λ name. text "job-1";
  loads = loads;
  fromisoformat =
      λ t. if text_eq t (text "2026-08-04T10:00:10+00:00") then some 20000000 else some 10000000;
  isoformat = λ at.
      if at == 20000000 then text "2026-08-04T10:00:10+00:00" else text "2026-08-04T10:00:00+00:00";
  ffprobe = λ bytes. profiled (record {
    codec = text "h264";
    width = 1280;
    height = 720;
    frame_rate = text "15/1";
    frames = 150;
    duration = 10000000;
  });
}

unfoldable pub blank_plan : DerivedPlan
blank_plan = record {
  job_id = [];
  parameters_json = [];
  parameters_sha256 = [];
  report_bytes = [];
  derived_digest_hex = [];
  derived_artifact_id = [];
  manifest_bytes = [];
  manifest_sha256 = [];
}

unfoldable pub plan_in : Result Error DerivedPlan → DerivedPlan
unfolding blank_plan
plan_in (ok plan) = plan
plan_in (err x) = blank_plan

-- A plan needs no json.loads.
unfoldable pub sample_plan : DerivedPlan
unfolding plan_derivation serialize manifest_fields storage_uri text text_eq plan_in
sample_plan =
    plan_in (plan_derivation (sample_runtime_on (λ b. none)) recording_evidence integrity_profile)

unfoldable pub report_manifest : Json
unfolding sample_plan manifest_fields complete_storage_uri
report_manifest = object (
    manifest_fields camera_name sample_plan.derived_digest_hex artifact_kind media_type
      (length sample_plan.report_bytes) (complete_storage_uri sample_plan.derived_digest_hex)
      finalized
      (field (text "parent_artifact_id") (string recording_evidence.artifact_id) no_fields))

unfoldable pub sample_runtime : Runtime
unfolding report_manifest serialize text_eq text manifest_fields storage_uri
sample_runtime = sample_runtime_on (λ b.
    if text_eq b (serialize recording_manifest)
    then some recording_manifest
    else some report_manifest)

abbrev pub recording_row : Artifact
recording_row = record {
  artifact_id = recording_evidence.artifact_id;
  facts = record {
    source_id = camera_name;
    artifact_kind = text "raw_media";
    media_type = text "video/mp4";
    byte_size = 3;
    digest_algorithm = text "sha256";
    digest_value = recording_digest;
    storage_uri = storage_uri recording_digest;
    manifest_uri = text "file:" ++ manifest_relative_path recording_digest;
    manifest_sha256 = recording_evidence.manifest_sha256;
    finalized_at = finalized;
  };
}

abbrev pub sample_ledger : Ledger
sample_ledger = record {
  table_names =
      text "schema_migrations"
      ∷ text "artifacts"
      ∷ text "processing_jobs"
      ∷ text "artifact_lineage"
      ∷ text "capture_occurrence_assertions"
      ∷ [];
  schema_migrations = canonical_history;
  artifacts = recording_row ∷ [];
  processing_jobs = [];
  artifact_lineage = [];
  capture_occurrence_assertions =
      record { occurrence_id = text "o1"; artifact_id = recording_row.artifact_id } ∷ [];
}

abbrev pub sample_machine : Machine
sample_machine = record {
  committed = sample_ledger;
  working = none;
  root_exists = true;
  device = 1;
  files =
      (media_relative_path recording_digest, regular recording)
      ∷ (manifest_relative_path recording_digest, regular (serialize recording_manifest))
      ∷ [];
  attempts = [];
  faults = [];
  clock = 5;
}

abbrev pub sample_request : ProcessRequest
sample_request = record {
  input_artifact_id = recording_row.artifact_id;
  profile = integrity_profile;
}

-- How a run ends: its disposition, or the code of its error.
unfoldable ended :
    Result Error (Disposition × DerivedPlan) × Machine → Option Disposition × Option Error
ended (ok (d, plan), m) = (some d, none)
ended (err x, m) = (none, some x)

sample_end : Option Disposition × Option Error
unfolding process_artifact sample_runtime ended
sample_end = ended (process_artifact sample_runtime sample_request sample_machine)
