-- ===== src/Processor/Report.antt =====
-- components/processor-worker/packages/processing/fingerprint.py: the canonical parameters, the
-- identity of a job and the report artifact-fingerprint-report.v1. A missing argument of
-- `build_report` is `none`; its sizes are natural numbers.
use edge_evidence_showcase.Prelude.{
  ℕ, Bool, true, false, ◌&&◌, Option, none, some, List, [], ◌∷◌, Text, text, text_eq, if◌then◌else◌,
}
use edge_evidence_showcase.Exec.{Result, ok, err, and_then}
use edge_evidence_showcase.Processor.Identity.{ProcessingError, matches_pattern, job_uri_name}
use edge_evidence_showcase.Processor.Json.{
  Json, integer, string, object, Fields, no_fields, field, find_field, no_unknown, has_fields,
  has_exactly, has_text, serialize,
}
use edge_evidence_showcase.Processor.Runtime.{Error, processing, Runtime}
use edge_evidence_showcase.Processor.Instants.{matches_artifact_id, matches_source_id}
use edge_evidence_showcase.Processor.Manifest.{text_with, is_integer, is_text, members}

abbrev pub processor_name : Text
processor_name = text "artifact-fingerprint"

abbrev pub processor_version : Text
processor_version = text "1"

abbrev pub output_contract : Text
output_contract = text "artifact-fingerprint-report.v1"

abbrev pub artifact_kind : Text
artifact_kind = text "metadata"

abbrev pub media_type : Text
media_type = text "application/vnd.seemorgh.artifact-fingerprint-report.v1+json"

abbrev pub relation_type : Text
relation_type = text "derived_from"

abbrev pub identity : Text
identity = text "identity"

abbrev pub integrity_profile : Text
integrity_profile = text "integrity"

abbrev pub profiles : List Text
profiles = identity ∷ integrity_profile ∷ []

-- if not condition: raise ProcessingError(code=code)
abbrev pub demand : Bool → ℕ → Result Error Unit
demand true code = ok tt
demand false code = err (processing code)

unfoldable pub canonical_parameters : Text → Result Error (List ℕ)
unfolding has_text serialize
canonical_parameters profile =
    and_then (demand (has_text profile profiles) 2)
      λ _. ok (serialize (object (field (text "profile") (string profile) no_fields)))

-- A ProcessingError of `job_uri_name`
unfoldable pub raised : {A : Type 0} → Result ProcessingError A → Result Error A
raised (ok a) = ok a
raised (err e) = err (processing e.code)

module _ (runtime : Runtime) where
  unfoldable pub parameters_sha256 : Text → Result Error Text
  unfolding canonical_parameters
  parameters_sha256 profile =
      and_then (canonical_parameters profile) λ bytes. ok (runtime.sha256 bytes)

  unfoldable pub job_id_for : Text → Text → Result Error Text
  unfolding parameters_sha256 raised job_uri_name
  job_id_for input_digest_hex profile = and_then (parameters_sha256 profile) λ params_hash.
      and_then (raised (job_uri_name input_digest_hex params_hash)) λ name. ok (runtime.uuid5 name)

abbrev pub common_required : List Text
common_required =
    text "schema_version"
    ∷ text "report_kind"
    ∷ text "processor"
    ∷ text "parameters"
    ∷ text "input"
    ∷ []

abbrev pub identity_input : List Text
identity_input = text "artifact_id" ∷ text "manifest_sha256" ∷ []

abbrev pub integrity_input : List Text
integrity_input =
    text "artifact_id"
    ∷ text "manifest_sha256"
    ∷ text "source_assertion"
    ∷ text "artifact_kind"
    ∷ text "media_type"
    ∷ text "byte_size"
    ∷ text "digest"
    ∷ []

unfoldable pub is_processor : Option Json → Bool
unfolding members has_exactly is_text
is_processor value = elim (members value) [
  | none ↦ false
  | some fs ↦
      has_exactly (text "name" ∷ text "version" ∷ []) fs
      && is_text processor_name (find_field (text "name") fs)
      && is_text processor_version (find_field (text "version") fs)
]

unfoldable pub has_input_keys : Bool → Option Json → Bool
unfolding members has_exactly
has_input_keys is_identity value = elim (members value) [
  | none ↦ false
  | some fs ↦ has_exactly (if is_identity then identity_input else integrity_input) fs
]

-- set(parameters) == {"profile"}, with one of the profiles
unfoldable pub is_parameters : Option Json → Bool
unfolding members has_exactly text_with has_text
is_parameters value = elim (members value) [
  | none ↦ false
  | some fs ↦
      has_exactly (text "profile" ∷ []) fs
      && text_with (λ t. has_text t profiles) (find_field (text "profile") fs)
]

-- report["parameters"]["profile"] == "identity"
unfoldable pub of_identity : Option Json → Bool
unfolding members is_text
of_identity value = elim (members value) [
  | none ↦ false
  | some fs ↦ is_text identity (find_field (text "profile") fs)
]

-- The tests of _validate_report_shape, in their order.
unfoldable pub has_report_shape : Json → Bool
unfolding no_unknown has_fields is_integer is_text is_processor is_parameters has_input_keys
    of_identity
has_report_shape (object fs) =
    no_unknown common_required fs
    && has_fields common_required fs
    && is_integer 1 (find_field (text "schema_version") fs)
    && is_text output_contract (find_field (text "report_kind") fs)
    && is_processor (find_field (text "processor") fs)
    && is_parameters (find_field (text "parameters") fs)
    && has_input_keys (of_identity (find_field (text "parameters") fs))
        (find_field (text "input") fs)
has_report_shape _ = false

unfoldable pub validate_report_shape : Json → Result Error Unit
unfolding has_report_shape
validate_report_shape report = demand (has_report_shape report) 6

-- {**common, "input": input}
unfoldable pub report_of : Text → Fields → Json
report_of profile input = object (
    field (text "schema_version") (integer 1) (
      field (text "report_kind") (string output_contract) (
        field (text "processor")
          (object (
            field (text "name") (string processor_name)
              (field (text "version") (string processor_version) no_fields)))
          (field (text "parameters") (object (field (text "profile") (string profile) no_fields))
            (field (text "input") (object input) no_fields)))))

unfoldable pub optional : (Text → Bool) → Option Text → Bool
optional test none = false
optional test (some t) = test t

-- The value of an argument that has been tested.
unfoldable pub given : Option Text → Text
given none = []
given (some t) = t

unfoldable pub integrity_fields : Text → Text → Text → ℕ → Text → Fields
integrity_fields artifact_id manifest_sha256 source_assertion byte_size digest_value =
    field (text "artifact_id") (string artifact_id) (
      field (text "manifest_sha256") (string manifest_sha256) (
        field (text "source_assertion") (string source_assertion) (
          field (text "artifact_kind") (string (text "raw_media")) (
            field (text "media_type") (string (text "video/mp4")) (
              field (text "byte_size") (integer byte_size) (
                field (text "digest")
                  (object (
                    field (text "algorithm") (string (text "sha256"))
                      (field (text "value") (string digest_value) no_fields)))
                  no_fields))))))

-- The keyword arguments of build_report beyond the first three.
pub record Facts : Type 0 where
  pub source_assertion : Option Text
  pub media_type : Option Text
  pub byte_size : Option ℕ
  pub digest_value : Option Text

abbrev pub no_facts : Facts
no_facts = record {
  source_assertion = none;
  media_type = none;
  byte_size = none;
  digest_value = none;
}

unfoldable pub build_integrity : Text → Text → Facts → Result Error Json
unfolding optional given integrity_fields report_of validate_report_shape matches_source_id
    matches_pattern
build_integrity artifact_id manifest_sha256 facts =
    and_then (demand (optional matches_source_id facts.source_assertion) 6) λ _.
      and_then (demand (optional (λ t. text_eq t (text "video/mp4")) facts.media_type) 6) λ _.
        elim facts.byte_size [
          | none ↦ err (processing 6)
          | some n ↦ and_then (demand (optional matches_pattern facts.digest_value) 6) λ _.
              let report = report_of integrity_profile (
                integrity_fields artifact_id manifest_sha256 (given facts.source_assertion) n
                  (given facts.digest_value)) in
              and_then (validate_report_shape report) (λ _. ok report)
        ]

unfoldable pub build_identity : Text → Text → Result Error Json
unfolding report_of validate_report_shape
build_identity artifact_id manifest_sha256 =
    let report = report_of identity (
      field (text "artifact_id") (string artifact_id)
        (field (text "manifest_sha256") (string manifest_sha256) no_fields)) in
    and_then (validate_report_shape report) (λ _. ok report)

unfoldable pub build_report : Text → Text → Text → Facts → Result Error Json
unfolding build_identity build_integrity matches_artifact_id matches_pattern has_text
build_report profile artifact_id manifest_sha256 facts =
    and_then (demand (has_text profile profiles) 2) λ _.
      and_then (demand (matches_artifact_id artifact_id) 6) λ _.
        and_then (demand (matches_pattern manifest_sha256) 6) λ _.
          (if text_eq profile identity
            then build_identity artifact_id manifest_sha256
            else build_integrity artifact_id manifest_sha256 facts)
