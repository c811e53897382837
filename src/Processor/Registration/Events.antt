-- ===== src/Processor/Registration/Events.antt =====
-- `plan_registration` of components/processor-worker/apps/edge_agent/register.py returns for a valid
-- request and a valid manifest: the event that it assembles passes its own shape guard.
use edge_evidence_showcase.Prelude.{ℕ, ◌≡◌, true, some, Text, text}
use edge_evidence_showcase.Exec.{ok}
use edge_evidence_showcase.Processor.Json.{Json, string, object, Fields, find_field}
use edge_evidence_showcase.Processor.Runtime.{Runtime}
use edge_evidence_showcase.Processor.Instants.{
  matches_artifact_id, matches_source_id, validate_rfc3339_utc, canonical_instant,
}
use edge_evidence_showcase.Processor.Verification.{text_of}
use edge_evidence_showcase.Processor.Registration.{
  RegisterRequest, RegistrationPlan, matches_uuid, occurrence_id, plan_registration,
}

module _ (runtime : Runtime) where
  -- A member that is a text with a property.
  abbrev Member : Text → Fields → (Text → Type 0) → Type 0
  Member name fs P =
      (find_field name fs ≡ some (string (text_of (find_field name fs))))
      × P (text_of (find_field name fs))

  abbrev IsParsed : Text → Type 0
  IsParsed t = (n : ℕ) × (validate_rfc3339_utc runtime t ≡ ok n)

  -- The members of a manifest that an event repeats.
  abbrev Members : Fields → Type 0
  Members fs =
      Member (text "source_id") fs (λ t. matches_source_id t ≡ true)
      × Member (text "artifact_id") fs (λ t. matches_artifact_id t ≡ true)
      × Member (text "finalized_at") fs IsParsed

  -- str(uuid5(…)) has the form of a UUID, and isoformat() of an instant in UTC passes the parser
  -- after its offset has been written as Z.
  abbrev pub IsRegular : Type 0
  IsRegular =
      ((name : Text) → matches_uuid (runtime.uuid5 name) ≡ true)
      × ((at : ℕ) → (n : ℕ) × (validate_rfc3339_utc runtime (canonical_instant runtime at) ≡ ok n))

  abbrev pub Registered : RegisterRequest → Fields → Text → Text → Type 0
  Registered request fs media_hex manifest_hex =
      (plan : RegistrationPlan) × (plan_registration runtime request (object fs) media_hex
          manifest_hex
        ≡ ok plan)
      × (find_field (text "source_id") fs ≡ some (string plan.source_id))
      × (find_field (text "artifact_id") fs ≡ some (string plan.artifact_id))
      × (find_field (text "finalized_at") fs ≡ some (string plan.capture_ended_at))
      × (plan.occurrence_id
          ≡ occurrence_id runtime plan.source_id request.session_id request.sequence)
      × (plan.event_payload_sha256 ≡ runtime.sha256 plan.event_payload)
