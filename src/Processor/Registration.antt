-- ===== src/Processor/Registration.antt =====
-- components/processor-worker/apps/edge_agent/register.py: the identities of an occurrence and of its
-- event, the event document, and the plan of one registration. A sequence number is a natural
-- number; `validate_sequence` of finalize.py refuses a negative one as it refuses zero.
pub mod Identities
pub mod Events
use edge_evidence_showcase.Prelude.{
  ℕ, zero, suc, Bool, true, false, not, ◌&&◌, Option, none, some, List, [], ◌∷◌, ◌++◌, Text, text,
  length, leb, take, ◌==◌, if◌then◌else◌,
}
use edge_evidence_showcase.Exec.{Result, ok, err, and_then}
use edge_evidence_showcase.Contracts.{is_hex, slash}
use edge_evidence_showcase.Processor.Identity.{at_end}
use edge_evidence_showcase.Processor.Json.{
  Json, string, integer, object, Fields, field, no_fields, find_field, no_unknown, has_fields,
  has_exactly, decimal, serialize,
}
use edge_evidence_showcase.Processor.Runtime.{Error, failure, Runtime, require}
use edge_evidence_showcase.Processor.Instants.{
  matches_artifact_id, matches_source_id, validate_rfc3339_utc, validate_instant, canonical_instant,
}
use edge_evidence_showcase.Processor.Manifest.{
  text_with, is_integer, is_natural, is_text, members, manifest_relative_path,
  validate_manifest_shape,
}
use edge_evidence_showcase.Processor.Verification.{text_of}
unfoldable pub use edge_evidence_showcase.Processor.Occurrences.{
  occurrence_uri_name, manifest_uri_for, validate_session_id, validate_sequence, matches_uuid,
  event_fields, build_segment_finalized_event,
}
pub use edge_evidence_showcase.Processor.Occurrences.{RegisterRequest, occurrence_uri_base}
use edge_evidence_showcase.Processor.Occurrences.{
  event_uri_base, event_type, event_uri_name, after_hex, event_required,
}

-- The value of an integer member.
unfoldable pub number_of : Option Json → ℕ
number_of (some (integer n)) = n
number_of _ = 0

unfoldable pub member_of : Text → Option Json → Option Json
unfolding members find_field
member_of name value = elim (members value) [ none ↦ none | some fs ↦ find_field name fs ]

pub record RegistrationPlan : Type 0 where
  pub artifact_id : Text
  pub source_id : Text
  pub artifact_kind : Text
  pub media_type : Text
  pub byte_size : ℕ
  pub digest_algorithm : Text
  pub digest_value : Text
  pub storage_uri : Text
  pub manifest_uri : Text
  pub manifest_sha256 : Text
  pub finalized_at : Text
  pub occurrence_id : Text
  pub session_id : Text
  pub sequence_number : ℕ
  pub capture_started_at : Text
  pub capture_ended_at : Text
  pub event_id : Text
  pub event_payload : List ℕ
  pub event_payload_sha256 : Text

module _ (runtime : Runtime) where
  unfoldable pub occurrence_id : Text → Text → ℕ → Text
  unfolding occurrence_uri_name
  occurrence_id source_id session_id sequence =
      runtime.uuid5 (occurrence_uri_name source_id session_id sequence)

  unfoldable pub event_id : Text → Text
  unfolding event_uri_name
  event_id occurrence_uuid = runtime.uuid5 (event_uri_name occurrence_uuid)

  -- validate_request; a parsed time stamp is dropped
  unfoldable pub validate_registration : RegisterRequest → Result Error Unit
  unfolding matches_artifact_id validate_session_id validate_sequence validate_rfc3339_utc
  validate_registration request =
      and_then (require (matches_artifact_id request.artifact_id) 2) λ _.
        and_then (validate_session_id request.session_id) λ _.
          and_then (validate_sequence request.sequence)
            λ _. and_then (validate_rfc3339_utc runtime request.capture_started_at) λ _. ok tt

  unfoldable pub canonical_rfc3339_utc : Text → Result Error Text
  unfolding validate_rfc3339_utc canonical_instant
  canonical_rfc3339_utc value =
      and_then (validate_rfc3339_utc runtime value) λ parsed. ok (canonical_instant runtime parsed)

  -- except FinalizeError: raise RegisterError(code=6)
  unfoldable pub validate_registered_manifest : Json → Result Error Fields
  unfolding members validate_manifest_shape
  validate_registered_manifest manifest = elim (members (some manifest)) [
    | none ↦ err (failure 6)
    | some fs ↦ elim (validate_manifest_shape runtime manifest) [
      | ok _ ↦ ok fs
      | err _ ↦ err (failure 6)
    ]
  ]

  -- validate_rfc3339_utc(mapping[name], …) of a member that has been found.
  unfoldable pub instant_member : Text → Fields → Result Error ℕ
  unfolding find_field validate_instant
  instant_member name fs = elim (find_field name fs) [
    | none ↦ err (failure 6)
    | some value ↦ validate_instant runtime value
  ]

  -- The tests of the interval.
  unfoldable pub validate_interval : Option Json → Result Error Unit
  unfolding members has_exactly instant_member
  validate_interval value = elim (members value) [
    | none ↦ err (failure 6)
    | some fs ↦
        and_then (require (has_exactly (text "started_at" ∷ text "ended_at" ∷ []) fs) 6) λ _.
          and_then (instant_member (text "started_at") fs)
            λ _. and_then (instant_member (text "ended_at") fs) λ _. ok tt
  ]

  -- The tests of validate_event_shape, in their order; a time stamp fails with the code 2.
  unfoldable pub validate_event_shape : Json → Result Error Unit
  unfolding no_unknown has_fields is_integer text_with matches_uuid is_text instant_member
      matches_source_id is_natural validate_interval matches_artifact_id
  validate_event_shape (object fs) =
      and_then
        (require
          (no_unknown event_required fs
            && has_fields event_required fs
            && is_integer 1 (find_field (text "schema_version") fs)
            && text_with matches_uuid (find_field (text "event_id") fs)
            && is_text event_type (find_field (text "event_type") fs))
          6)
        λ _. and_then (instant_member (text "occurred_at") fs) λ _.
          and_then
            (require
              (text_with matches_source_id (find_field (text "source_id") fs)
                && is_natural (find_field (text "sequence_number") fs))
              6)
            λ _. and_then (validate_interval (find_field (text "interval") fs)) λ _.
              require
                (text_with matches_artifact_id (find_field (text "artifact_id") fs)
                  && text_with (λ t. leb 1 (length t)) (find_field (text "manifest_uri") fs))
                6
  validate_event_shape _ = err (failure 6)

  unfoldable pub plan_registration :
      RegisterRequest → Json → Text → Text → Result Error RegistrationPlan
  unfolding validate_registered_manifest text_of number_of member_of canonical_rfc3339_utc
      occurrence_id event_id manifest_uri_for build_segment_finalized_event validate_event_shape
      serialize
  plan_registration request manifest media_sha256_hex manifest_sha256_hex =
      and_then (validate_registered_manifest manifest) λ fs.
        and_then (canonical_rfc3339_utc request.capture_started_at) λ started_at.
          let source = text_of (find_field (text "source_id") fs) in
          let artifact = text_of (find_field (text "artifact_id") fs) in
          let digest = find_field (text "digest") fs in
          let ended_at = text_of (find_field (text "finalized_at") fs) in
          let occurrence = occurrence_id source request.session_id request.sequence in
          let event_uuid = event_id occurrence in
          let uri = manifest_uri_for media_sha256_hex in
          and_then
            (build_segment_finalized_event event_uuid ended_at source request.sequence started_at
              ended_at artifact uri)
            λ event. and_then (validate_event_shape event) λ _. ok (record {
              artifact_id = artifact;
              source_id = source;
              artifact_kind = text_of (find_field (text "artifact_kind") fs);
              media_type = text_of (find_field (text "media_type") fs);
              byte_size = number_of (find_field (text "byte_size") fs);
              digest_algorithm = text_of (member_of (text "algorithm") digest);
              digest_value = text_of (member_of (text "value") digest);
              storage_uri = text_of (find_field (text "storage_uri") fs);
              manifest_uri = uri;
              manifest_sha256 = manifest_sha256_hex;
              finalized_at = ended_at;
              occurrence_id = occurrence;
              session_id = request.session_id;
              sequence_number = request.sequence;
              capture_started_at = started_at;
              capture_ended_at = ended_at;
              event_id = event_uuid;
              event_payload = serialize event;
              event_payload_sha256 = runtime.sha256 (serialize event);
            })
