-- ===== src/Tests/Registering.antt =====
-- The registration of the sample recording, and the end of its interval.
use edge_evidence_showcase.Prelude.{ℕ, ◌≡◌, refl, some, Text, text, text_eq}
use edge_evidence_showcase.Processor.Json.{Fields, no_fields}
use edge_evidence_showcase.Processor.Runtime.{Profile, Runtime}
use edge_evidence_showcase.Processor.Manifest.{manifest_fields, storage_uri}
use edge_evidence_showcase.Processor.Instants.{matches_source_id}
use edge_evidence_showcase.Processor.Registration.{RegisterRequest}
use edge_evidence_showcase.Processor.Registration.Identities.{occurrence_uri_name-same}
use edge_evidence_showcase.Tests.Deriving.{
  digest_of, recording_digest, finalized, camera_name, recording_row, sample_runtime,
}

abbrev morning : Text
morning = text "session-1"

occurrence_uri_name-same_example :
    (camera_name ≡ camera_name) × (morning ≡ morning) × (◌≡◌ {A = ℕ} 7 7)
unfolding matches_source_id text text_eq
occurrence_uri_name-same_example =
    occurrence_uri_name-same camera_name morning camera_name morning 7 7 refl refl refl refl refl

-- A runtime whose UUIDs have their usual form.
abbrev registering_runtime : Runtime
registering_runtime = record {
  sha256 = digest_of;
  uuid5 = λ name. text "6ba7b811-9dad-11d1-80b4-00c04fd430c8";
  loads = sample_runtime.loads;
  fromisoformat = λ t. some 10000000;
  isoformat = λ at. text "2026-08-04T10:00:00+00:00";
  ffprobe = sample_runtime.ffprobe;
}

abbrev registering_request : RegisterRequest
registering_request = record {
  artifact_id = recording_row.artifact_id;
  session_id = morning;
  sequence = 7;
  capture_started_at = text "2026-08-04T10:00:00Z";
}

abbrev registered_manifest : Fields
registered_manifest =
    manifest_fields camera_name recording_digest (text "raw_media") (text "video/mp4") 3
      (storage_uri recording_digest) finalized no_fields

abbrev locked_profile : Profile
locked_profile = record {
  codec = text "h264";
  width = 1280;
  height = 720;
  frame_rate = text "15/1";
  frames = 150;
  duration = 10000000;
}
