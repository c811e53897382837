-- ===== src/Processor/Capture/Ends.antt =====
-- The end of an interval that `capture_ended_at` (components/processor-worker/apps/edge_agent/finalize.py)
-- gives against the tests of the evidence (verification.py).
use edge_evidence_showcase.Prelude.{ℕ, ◌+◌, ◌≤◌, ◌≡◌, refl, ◌↔◌, true, some, Text, text, leb}
use edge_evidence_showcase.Exec.{ok}
use edge_evidence_showcase.Processor.Runtime.{Profile, profiled, Runtime}
use edge_evidence_showcase.Processor.Instants.{validate_rfc3339_utc, canonical_instant}
use edge_evidence_showcase.Processor.Verification.{require_profile, instant_agrees}
use edge_evidence_showcase.Processor.Planning.{then_ok}
use edge_evidence_showcase.Processor.Capture.{last_instant, later_by, capture_ended_at}

-- The stream of a recording, apart from its duration.
abbrev pub IsStream : Profile → Type 0
IsStream p =
    (p.codec ≡ text "h264")
    × (p.width ≡ 1280)
    × (p.height ≡ 720)
    × (p.frame_rate ≡ text "15/1")
    × (p.frames ≡ 150)

-- From 9.9 to 10.1 seconds, in microseconds.
abbrev pub IsLocked : ℕ → Type 0
IsLocked duration = (9900000 ≤ duration) × (duration ≤ 10100000)

module _ (runtime : Runtime) where
  -- The end at which the evidence is tested as the profile of the media is.
  abbrev pub Agrees : Text → Profile → Type 0
  Agrees start p =
      (ended : Text) × (capture_ended_at runtime start (some p.duration) ≡ ok ended)
      × ((instant_agrees runtime start ended ≡ ok tt) ↔ IsLocked p.duration)
      × ((require_profile (profiled p) ≡ ok tt)
          ↔ (IsStream p × (instant_agrees runtime start ended ≡ ok tt)))

  ended :
      (start : Text) (at duration : ℕ)
      → validate_rfc3339_utc runtime start ≡ ok at
      → leb (at + duration) last_instant ≡ true
      → capture_ended_at runtime start (some duration)
        ≡ ok (canonical_instant runtime (at + duration))
  unfolding capture_ended_at later_by
  ended start at duration e l = then_ok _ e (rw l refl)
