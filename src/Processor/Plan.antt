-- ===== src/Processor/Plan.antt =====
-- The plan of a derivation, a pure function of the evidence: `plan_derivation` and its parts in
-- components/processor-worker/apps/edge_agent/process.py.
use edge_evidence_showcase.Prelude.{
  ℕ, some, List, ◌∷◌, ◌++◌, Text, text, text_eq, length, take, if◌then◌else◌,
}
use edge_evidence_showcase.Exec.{Result, ok, and_then}
use edge_evidence_showcase.Contracts.{slash}
use edge_evidence_showcase.Processor.Json.{
  Json, string, object, no_fields, field, serialize, has_text,
}
use edge_evidence_showcase.Processor.Runtime.{Error, Runtime, require}
use edge_evidence_showcase.Processor.Instants.{id_prefix, matches_artifact_id}
use edge_evidence_showcase.Processor.Manifest.{manifest_fields, validate_manifest_shape}
use edge_evidence_showcase.Processor.Report.{
  processor_name, processor_version, output_contract, artifact_kind, media_type, identity, profiles,
  canonical_parameters, parameters_sha256, job_id_for, no_facts, build_report,
}
use edge_evidence_showcase.Processor.Ledger.{ArtifactFacts, JobIdentity}
use edge_evidence_showcase.Processor.Staging.{under}

pub record ProcessRequest : Type 0 where
  pub input_artifact_id : Text
  pub profile : Text

unfoldable pub validate_request : ProcessRequest → Result Error Unit
unfolding matches_artifact_id has_text
validate_request request =
    and_then (require (matches_artifact_id request.input_artifact_id) 2)
      λ _. require (has_text request.profile profiles) 2

pub record InputEvidence : Type 0 where
  pub artifact_id : Text
  pub digest_hex : Text
  pub source_id : Text
  pub media_type : Text
  pub byte_size : ℕ
  pub manifest_sha256 : Text
  pub finalized_at : Text

pub record DerivedPlan : Type 0 where
  pub job_id : Text
  pub parameters_json : List ℕ
  pub parameters_sha256 : Text
  pub report_bytes : List ℕ
  pub derived_digest_hex : Text
  pub derived_artifact_id : Text
  pub manifest_bytes : List ℕ
  pub manifest_sha256 : Text

-- _complete_relative_path
unfoldable pub complete_relative_path : Text → Text
complete_relative_path derived_hex =
    text "complete/sha256/" ++ (take 2 derived_hex ++ slash ∷ (derived_hex ++ text ".json"))

-- _manifest_relative_path
unfoldable pub derived_manifest_path : Text → Text
derived_manifest_path derived_hex =
    text "manifests/sha256/" ++ (take 2 derived_hex ++ slash ∷ (derived_hex ++ text ".json"))

-- _complete_storage_uri
unfoldable pub complete_storage_uri : Text → Text
unfolding complete_relative_path
complete_storage_uri derived_hex = text "file:" ++ complete_relative_path derived_hex

-- _partial_dir
unfoldable pub partial_dir : Text → Text
partial_dir job_id = text "partial/processing/" ++ job_id

-- _quarantine_dir
unfoldable pub quarantine_dir : Text → Text
quarantine_dir job_id = text "quarantine/processing/" ++ job_id

unfoldable pub output_partial : DerivedPlan → Text
unfolding partial_dir under
output_partial plan = under (partial_dir plan.job_id) (text "output.json.partial")

unfoldable pub manifest_partial : DerivedPlan → Text
unfolding partial_dir under
manifest_partial plan = under (partial_dir plan.job_id) (text "manifest.json.partial")

-- f"{qhash}.{kind}.json.partial" in the quarantine of the job
unfoldable pub quarantine_path : Text → Text → Text → Text
unfolding quarantine_dir under
quarantine_path job_id qhash kind =
    under (quarantine_dir job_id) (qhash ++ b'.' ∷ (kind ++ text ".json.partial"))

unfoldable pub final_report : DerivedPlan → Text
unfolding complete_relative_path
final_report plan = complete_relative_path plan.derived_digest_hex

unfoldable pub final_manifest : DerivedPlan → Text
unfolding derived_manifest_path
final_manifest plan = derived_manifest_path plan.derived_digest_hex

-- _job_identity_tuple; the parameters are ASCII, so that their bytes are their text
unfoldable pub job_identity : DerivedPlan → InputEvidence → JobIdentity
job_identity plan evidence = record {
  input_artifact_id = evidence.artifact_id;
  processor_name = processor_name;
  processor_version = processor_version;
  output_contract = output_contract;
  parameters_json = plan.parameters_json;
  parameters_sha256 = plan.parameters_sha256;
}

-- The expected columns of the derived artifact.
unfoldable pub expected_facts : DerivedPlan → InputEvidence → ArtifactFacts
unfolding complete_storage_uri derived_manifest_path
expected_facts plan evidence = record {
  source_id = evidence.source_id;
  artifact_kind = artifact_kind;
  media_type = media_type;
  byte_size = length plan.report_bytes;
  digest_algorithm = text "sha256";
  digest_value = plan.derived_digest_hex;
  storage_uri = complete_storage_uri plan.derived_digest_hex;
  manifest_uri = text "file:" ++ derived_manifest_path plan.derived_digest_hex;
  manifest_sha256 = plan.manifest_sha256;
  finalized_at = evidence.finalized_at;
}

module _ (runtime : Runtime) where
  -- _build_derived_manifest
  unfoldable pub build_derived_manifest : Text → Text → ℕ → Text → Text → Result Error Json
  unfolding manifest_fields validate_manifest_shape complete_storage_uri
  build_derived_manifest source_id derived_hex byte_size finalized_at parent_artifact_id =
      let manifest = object (
        manifest_fields source_id derived_hex artifact_kind media_type byte_size
          (complete_storage_uri derived_hex) finalized_at
          (field (text "parent_artifact_id") (string parent_artifact_id) no_fields)) in
      and_then (validate_manifest_shape runtime manifest) (λ _. ok manifest)

  -- The report of a profile.
  unfoldable pub derived_report : InputEvidence → Text → Result Error Json
  unfolding build_report
  derived_report evidence profile =
      if text_eq profile identity
      then build_report identity evidence.artifact_id evidence.manifest_sha256 no_facts
      else build_report (text "integrity") evidence.artifact_id evidence.manifest_sha256 (record {
        source_assertion = some evidence.source_id;
        media_type = some evidence.media_type;
        byte_size = some evidence.byte_size;
        digest_value = some evidence.digest_hex;
      })

  unfoldable pub plan_derivation : InputEvidence → Text → Result Error DerivedPlan
  unfolding canonical_parameters parameters_sha256 job_id_for derived_report serialize
      build_derived_manifest
  plan_derivation evidence profile = and_then (canonical_parameters profile) λ params_json.
      and_then (parameters_sha256 runtime profile) λ params_sha.
        and_then (job_id_for runtime evidence.digest_hex profile) λ job_id.
          and_then (derived_report evidence profile) λ report.
            let report_bytes = serialize report in
            let derived_hex = runtime.sha256 report_bytes in
            and_then
              (build_derived_manifest evidence.source_id derived_hex (length report_bytes)
                evidence.finalized_at evidence.artifact_id)
              λ manifest. ok (record {
                job_id = job_id;
                parameters_json = params_json;
                parameters_sha256 = params_sha;
                report_bytes = report_bytes;
                derived_digest_hex = derived_hex;
                derived_artifact_id = id_prefix ++ derived_hex;
                manifest_bytes = serialize manifest;
                manifest_sha256 = runtime.sha256 (serialize manifest);
              })
