-- ===== src/Processor/Occurrences.antt =====
-- components/processor-worker/apps/edge_agent/register.py: the identities of an occurrence and of its
-- event, and the event.
use edge_evidence_showcase.Prelude.{
  ℕ, Bool, false, Option, none, some, List, [], ◌∷◌, ◌++◌, Text, text, leb, ◌==◌, if◌then◌else◌,
}
use edge_evidence_showcase.Exec.{Result, ok, and_then}
use edge_evidence_showcase.Contracts.{is_hex, slash}
use edge_evidence_showcase.Processor.Identity.{at_end}
use edge_evidence_showcase.Processor.Json.{
  Json, string, integer, object, Fields, field, no_fields, decimal,
}
use edge_evidence_showcase.Processor.Runtime.{Error, require}
use edge_evidence_showcase.Processor.Instants.{matches_artifact_id, matches_source_id}
use edge_evidence_showcase.Processor.Manifest.{manifest_relative_path}

pub record RegisterRequest : Type 0 where
  pub artifact_id : Text
  pub session_id : Text
  pub sequence : ℕ
  pub capture_started_at : Text

abbrev pub occurrence_uri_base : Text
occurrence_uri_base = text "https://schemas.seemorgh.dev/edge-evidence/occurrences/v1/"

abbrev pub event_uri_base : Text
event_uri_base = text "https://schemas.seemorgh.dev/edge-evidence/events/segment-finalized/v1/"

abbrev pub event_type : Text
event_type = text "SegmentFinalized"

unfoldable pub occurrence_uri_name : Text → Text → ℕ → Text
unfolding decimal
occurrence_uri_name source_id session_id sequence =
    occurrence_uri_base ++ (source_id ++ slash ∷ (session_id ++ slash ∷ decimal sequence))

unfoldable pub event_uri_name : Text → Text
event_uri_name occurrence_uuid = event_uri_base ++ occurrence_uuid

unfoldable pub manifest_uri_for : Text → Text
unfolding manifest_relative_path
manifest_uri_for sha256_hex = text "file:" ++ manifest_relative_path sha256_hex

unfoldable pub validate_session_id : Text → Result Error Unit
unfolding matches_source_id
validate_session_id session_id = require (matches_source_id session_id) 2

unfoldable pub validate_sequence : ℕ → Result Error Unit
validate_sequence sequence = require (leb 1 sequence) 2

-- The rest behind a template, in which `h` stands for a lowercase hex digit.
unfoldable pub after_hex : Text → Text → Option Text
unfolding is_hex
after_hex [] s = some s
after_hex (t ∷ ts) [] = none
after_hex (t ∷ ts) (c ∷ s) =
    if (if t == b'h' then is_hex c else c == t) then after_hex ts s else none

-- _UUID_PATTERN.match
unfoldable pub matches_uuid : Text → Bool
unfolding after_hex at_end
matches_uuid s = elim (after_hex (text "hhhhhhhh-hhhh-hhhh-hhhh-hhhhhhhhhhhh") s) [
  | none ↦ false
  | some rest ↦ at_end rest
]

abbrev pub event_required : List Text
event_required =
    text "schema_version"
    ∷ text "event_id"
    ∷ text "event_type"
    ∷ text "occurred_at"
    ∷ text "source_id"
    ∷ text "sequence_number"
    ∷ text "interval"
    ∷ text "artifact_id"
    ∷ text "manifest_uri"
    ∷ []

-- The mapping of build_segment_finalized_event.
unfoldable pub event_fields : Text → Text → Text → ℕ → Text → Text → Text → Text → Fields
event_fields event_uuid occurred_at source_id sequence started_at ended_at artifact_id
      manifest_uri =
    field (text "schema_version") (integer 1) (
      field (text "event_id") (string event_uuid) (
        field (text "event_type") (string event_type) (
          field (text "occurred_at") (string occurred_at) (
            field (text "source_id") (string source_id) (
              field (text "sequence_number") (integer sequence) (
                field (text "interval")
                  (object (
                    field (text "started_at") (string started_at)
                      (field (text "ended_at") (string ended_at) no_fields)))
                  (field (text "artifact_id") (string artifact_id)
                    (field (text "manifest_uri") (string manifest_uri) no_fields))))))))

unfoldable pub build_segment_finalized_event :
    Text → Text → Text → ℕ → Text → Text → Text → Text → Result Error Json
unfolding matches_artifact_id event_fields
build_segment_finalized_event event_uuid occurred_at source_id sequence started_at ended_at
      artifact_id manifest_uri =
    and_then (require (matches_artifact_id artifact_id) 6) λ _. ok (
      object (
        event_fields event_uuid occurred_at source_id sequence started_at ended_at artifact_id
          manifest_uri))
