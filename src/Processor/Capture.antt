-- ===== src/Processor/Capture.antt =====
-- The capture side of components/processor-worker/apps/edge_agent/finalize.py: the descriptor of a
-- recording, the request to finalize it, and the end of its interval.
pub mod Ends
use edge_evidence_showcase.Prelude.{
  ℕ, ◌+◌, Bool, true, false, not, ◌&&◌, Option, none, some, List, [], ◌∷◌, Text, text, map, all,
  length, leb, ltb, ◌++◌, if◌then◌else◌,
}
use edge_evidence_showcase.Exec.{Result, ok, err, and_then}
use edge_evidence_showcase.Processor.Json.{
  Json, boolean, Fields, find_field, has_text, no_unknown, has_fields,
}
use edge_evidence_showcase.Processor.Runtime.{Error, failure, Runtime, require}
use edge_evidence_showcase.Processor.Instants.{
  expected_duration, matches_source_id, validate_rfc3339_utc, canonical_instant,
}
use edge_evidence_showcase.Processor.Manifest.{text_with, is_integer, is_text, members}
use edge_evidence_showcase.Processor.Registration.{validate_session_id, validate_sequence}

pub record FinalizeRequest : Type 0 where
  pub session_id : Text
  pub sequence : ℕ
  pub capture_started_at : Text

abbrev pub source_required : List Text
source_required =
    text "schema_version"
    ∷ text "source_id"
    ∷ text "source_kind"
    ∷ text "display_name"
    ∷ text "clock_domain"
    ∷ []

abbrev pub source_kinds : List Text
source_kinds = text "deterministic" ∷ text "rtsp" ∷ text "recording_import" ∷ []

abbrev pub clock_domains : List Text
clock_domains = text "source" ∷ text "system" ∷ text "unknown" ∷ []

abbrev pub descriptor_required : List Text
descriptor_required =
    text "descriptor_kind"
    ∷ text "source"
    ∷ text "profile"
    ∷ text "requested"
    ∷ text "expected"
    ∷ text "observed"
    ∷ []

-- type(value) is bool and value == b
unfoldable pub is_boolean : Bool → Option Json → Bool
is_boolean true (some (boolean true)) = true
is_boolean false (some (boolean false)) = true
is_boolean b _ = false

abbrev pub profile_integers : List (Text × ℕ)
profile_integers =
    (text "width", 1280)
    ∷ (text "height", 720)
    ∷ (text "frame_rate", 15)
    ∷ (text "gop_frames", 15)
    ∷ []

abbrev pub profile_texts : List (Text × Text)
profile_texts =
    (text "codec_name", text "h264")
    ∷ (text "frame_rate_rational", text "15/1")
    ∷ (text "encoder", text "libx264")
    ∷ (text "pixel_format", text "yuv420p")
    ∷ (text "synthetic_source", text "testsrc2")
    ∷ (text "creation_time", text "1970-01-01T00:00:00Z")
    ∷ []

abbrev pub profile_flags : List (Text × Bool)
profile_flags = (text "audio", false) ∷ (text "faststart", true) ∷ []

abbrev pub profile_names : List Text
profile_names =
    map (λ (e : Text × ℕ). e.0) profile_integers
    ++ map (λ (e : Text × Text). e.0) profile_texts
    ++ map (λ (e : Text × Bool). e.0) profile_flags

abbrev pub expected_integers : List (Text × ℕ)
expected_integers =
    (text "width", 1280)
    ∷ (text "height", 720)
    ∷ (text "duration_seconds", 10)
    ∷ (text "duration_tolerance_ms", 100)
    ∷ (text "frame_count", 150)
    ∷ []

abbrev pub expected_texts : List (Text × Text)
expected_texts = (text "codec_name", text "h264") ∷ (text "avg_frame_rate", text "15/1") ∷ []

abbrev pub expected_names : List Text
expected_names =
    map (λ (e : Text × ℕ). e.0) expected_integers ++ map (λ (e : Text × Text). e.0) expected_texts

unfoldable pub has_integers : List (Text × ℕ) → Fields → Bool
unfolding is_integer find_field
has_integers wanted fs = all (λ (e : Text × ℕ). is_integer e.1 (find_field e.0 fs)) wanted

unfoldable pub has_texts : List (Text × Text) → Fields → Bool
unfolding is_text find_field
has_texts wanted fs = all (λ (e : Text × Text). is_text e.1 (find_field e.0 fs)) wanted

unfoldable pub has_flags : List (Text × Bool) → Fields → Bool
unfolding is_boolean find_field
has_flags wanted fs = all (λ (e : Text × Bool). is_boolean e.1 (find_field e.0 fs)) wanted

-- The tests of _validate_source_v1, in their order; every refusal has the code 2.
unfoldable pub has_source_shape : Fields → Bool
unfolding no_unknown has_fields is_integer text_with has_text find_field
has_source_shape fs =
    no_unknown source_required fs
    && has_fields source_required fs
    && is_integer 1 (find_field (text "schema_version") fs)
    && text_with matches_source_id (find_field (text "source_id") fs)
    && text_with (λ t. has_text t source_kinds) (find_field (text "source_kind") fs)
    && text_with (λ t. leb 1 (length t) && leb (length t) 200) (find_field (text "display_name") fs)
    && text_with (λ t. has_text t clock_domains) (find_field (text "clock_domain") fs)

unfoldable pub validate_source_v1 : Option Json → Result Error Fields
unfolding members has_source_shape
validate_source_v1 value = elim (members value) [
  | none ↦ err (failure 2)
  | some fs ↦ and_then (require (has_source_shape fs) 2) λ _. ok fs
]

-- _validate_descriptor_profile
unfoldable pub has_profile : Option Json → Bool
unfolding members no_unknown has_fields has_integers has_texts has_flags
has_profile value = elim (members value) [
  | none ↦ false
  | some fs ↦
      no_unknown profile_names fs
      && has_fields profile_names fs
      && has_integers profile_integers fs
      && has_texts profile_texts fs
      && has_flags profile_flags fs
]

-- _validate_descriptor_requested
unfoldable pub has_requested : Option Json → Bool
unfolding members no_unknown is_integer find_field
has_requested value = elim (members value) [
  | none ↦ false
  | some fs ↦
      no_unknown (text "duration_seconds" ∷ []) fs
      && is_integer 10 (find_field (text "duration_seconds") fs)
]

-- _validate_descriptor_expected
unfoldable pub has_expected : Option Json → Bool
unfolding members no_unknown has_fields has_integers has_texts
has_expected value = elim (members value) [
  | none ↦ false
  | some fs ↦
      no_unknown expected_names fs
      && has_fields expected_names fs
      && has_integers expected_integers fs
      && has_texts expected_texts fs
]

unfoldable pub is_object : Option Json → Bool
unfolding members
is_object value = elim (members value) [ none ↦ false | some fs ↦ true ]

-- validate_descriptor; it returns the members of the source.
unfoldable pub validate_descriptor : Json → Result Error Fields
unfolding members no_unknown has_fields is_text validate_source_v1 has_profile has_requested
    has_expected is_object find_field
validate_descriptor descriptor = elim (members (some descriptor)) [
  | none ↦ err (failure 2)
  | some fs ↦
      and_then
        (require
          (no_unknown descriptor_required fs
            && has_fields descriptor_required fs
            && is_text (text "deterministic-media-descriptor.v1")
                (find_field (text "descriptor_kind") fs))
          2)
        λ _. and_then (validate_source_v1 (find_field (text "source") fs)) λ source.
          and_then
            (require (is_text (text "deterministic") (find_field (text "source_kind") source)) 2)
            λ _. and_then (require (has_profile (find_field (text "profile") fs)) 2) λ _.
              and_then (require (has_requested (find_field (text "requested") fs)) 2) λ _.
                and_then (require (has_expected (find_field (text "expected") fs)) 2) λ _.
                  and_then (require (is_object (find_field (text "observed") fs)) 2) λ _. ok source
]

-- The last instant that a datetime can name, in microseconds from the first one.
abbrev pub last_instant : ℕ
last_instant = 315537897599999999

-- started + timedelta(…); an OverflowError is renamed
unfoldable pub later_by : ℕ → ℕ → Result Error ℕ
later_by started duration =
    if leb (started + duration) last_instant then ok (started + duration) else err (failure 2)

module _ (runtime : Runtime) where
  -- validate_request
  unfoldable pub validate_finalization : FinalizeRequest → Result Error Unit
  unfolding validate_session_id validate_sequence validate_rfc3339_utc later_by
  validate_finalization request = and_then (validate_session_id request.session_id) λ _.
      and_then (validate_sequence request.sequence) λ _.
        and_then (validate_rfc3339_utc runtime request.capture_started_at)
          λ started. and_then (later_by started expected_duration) λ _. ok tt

  -- capture_ended_at; the duration is in microseconds, and `none` where it is negative or not finite.
  unfoldable pub capture_ended_at : Text → Option ℕ → Result Error Text
  unfolding validate_rfc3339_utc later_by canonical_instant
  capture_ended_at capture_started_at observed =
      and_then (validate_rfc3339_utc runtime capture_started_at) λ started. elim observed [
        | none ↦ err (failure 6)
        | some duration ↦
            and_then (later_by started duration) λ ended. ok (canonical_instant runtime ended)
      ]
