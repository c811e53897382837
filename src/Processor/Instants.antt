-- ===== src/Processor/Instants.antt =====
-- Patterns and time stamps of components/processor-worker/apps/edge_agent/finalize.py. `\d` is read
-- as an ASCII digit: fromisoformat refuses the others with the same exit code.
use edge_evidence_showcase.Prelude.{
  ℕ, zero, suc, ◌-◌, Bool, true, false, not, ◌&&◌, ◌||◌, Option, none, some, [], ◌∷◌, Text, text,
  drop, leb, ltb, ◌==◌, if◌then◌else◌,
}
use edge_evidence_showcase.Exec.{Result, ok, err, and_then}
use edge_evidence_showcase.Contracts.{starts_with}
use edge_evidence_showcase.Processor.Identity.{at_end, matches_pattern}
use edge_evidence_showcase.Processor.Json.{Json, string}
use edge_evidence_showcase.Processor.Runtime.{Error, failure, overflow, Runtime}

abbrev pub id_prefix : Text
id_prefix = text "sha256:"

-- _ARTIFACT_ID_PATTERN.match, of ^sha256:[a-f0-9]{64}$
unfoldable pub matches_artifact_id : Text → Bool
unfolding matches_pattern
matches_artifact_id s = starts_with s id_prefix && matches_pattern (drop 7 s)

unfoldable pub is_digit : ℕ → Bool
is_digit c = leb b'0' c && leb c b'9'

-- [a-z0-9]
unfoldable pub is_source_head : ℕ → Bool
unfolding is_digit
is_source_head c = (leb b'a' c && leb c b'z') || is_digit c

-- [a-z0-9._-]
unfoldable pub is_source_char : ℕ → Bool
unfolding is_source_head
is_source_char c = is_source_head c || c == b'.' || c == b'_' || c == b'-'

-- [a-z0-9._-]{0,n}$
unfoldable pub source_tail : ℕ → Text → Bool
unfolding is_source_char at_end
source_tail n [] = true
source_tail zero (c ∷ s) = at_end (c ∷ s)
source_tail (suc n) (c ∷ s) = (is_source_char c && source_tail n s) || at_end (c ∷ s)

-- _SOURCE_ID_PATTERN.match, of ^[a-z0-9][a-z0-9._-]{0,127}$
unfoldable pub matches_source_id : Text → Bool
unfolding is_source_head source_tail
matches_source_id [] = false
matches_source_id (c ∷ s) = is_source_head c && source_tail 127 s

-- The rest behind a template, in which `d` stands for a digit.
unfoldable pub after_template : Text → Text → Option Text
unfolding is_digit
after_template [] s = some s
after_template (t ∷ ts) [] = none
after_template (t ∷ ts) (c ∷ s) =
    if (if t == b'd' then is_digit c else c == t) then after_template ts s else none

unfoldable pub skip_digits : Text → Text
unfolding is_digit
skip_digits [] = []
skip_digits (c ∷ s) = if is_digit c then skip_digits s else c ∷ s

-- (Z|\+00:00)$
unfoldable pub is_offset : Text → Bool
unfolding at_end
is_offset s =
    (starts_with s (text "Z") && at_end (drop 1 s))
    || (starts_with s (text "+00:00") && at_end (drop 6 s))

starts_with_digit : Text → Bool
unfolding is_digit
starts_with_digit [] = false
starts_with_digit (c ∷ s) = is_digit c

-- (\.\d+)?(Z|\+00:00)$
unfoldable pub is_fraction_and_offset : Text → Bool
unfolding is_offset skip_digits starts_with_digit
is_fraction_and_offset [] = false
is_fraction_and_offset (c ∷ s) =
    if c == b'.' then starts_with_digit s && is_offset (skip_digits s) else is_offset (c ∷ s)

-- _RFC3339_UTC_PATTERN.match
unfoldable pub matches_rfc3339 : Text → Bool
unfolding after_template is_fraction_and_offset
matches_rfc3339 s = elim (after_template (text "dddd-dd-ddTdd:dd:dd") s) [
  | none ↦ false
  | some rest ↦ is_fraction_and_offset rest
]

-- value[:-1] + "+00:00" if value.endswith("Z") else value
unfoldable pub with_offset : Text → Text
with_offset [] = []
with_offset (c ∷ []) = if c == b'Z' then text "+00:00" else c ∷ []
with_offset (c ∷ d ∷ s) = c ∷ with_offset (d ∷ s)

-- s.replace("+00:00", "Z"), with the number of characters to skip
unfoldable pub replace_offset : ℕ → Text → Text
replace_offset skip [] = []
replace_offset (suc skip) (c ∷ s) = replace_offset skip s
replace_offset zero (c ∷ s) =
    let skipped = replace_offset 5 s in
    let kept = replace_offset 0 s in
    if starts_with (c ∷ s) (text "+00:00") then b'Z' ∷ skipped else c ∷ kept

-- EXPECTED_DURATION_SECONDS and DURATION_TOLERANCE_MS, in microseconds
abbrev pub expected_duration : ℕ
expected_duration = 10000000

abbrev pub duration_tolerance : ℕ
duration_tolerance = 100000

-- abs(a - b)
unfoldable pub distance : ℕ → ℕ → ℕ
distance a b = if leb a b then b - a else a - b

-- abs(delta_ms - target_ms) <= DURATION_TOLERANCE_MS. A float in milliseconds decides this as the
-- whole microseconds do: at the two bounds it is exact, and beside them its error is far below one.
unfoldable pub is_locked_delta : ℕ → Bool
unfolding distance
is_locked_delta delta = leb (distance delta expected_duration) duration_tolerance

module _ (runtime : Runtime) where
  unfoldable pub validate_rfc3339_utc : Text → Result Error ℕ
  unfolding matches_rfc3339 with_offset
  validate_rfc3339_utc value =
      if not (matches_rfc3339 value)
      then err (failure 2)
      else elim (runtime.fromisoformat (with_offset value)) [
        | none ↦ err (failure 2)
        | some at ↦ ok at
      ]

  -- The same on a value of any type, which has to be a text.
  unfoldable pub validate_instant : Json → Result Error ℕ
  unfolding validate_rfc3339_utc
  validate_instant (string value) = validate_rfc3339_utc value
  validate_instant _ = err (failure 2)

  -- at.isoformat().replace("+00:00", "Z")
  unfoldable pub canonical_instant : ℕ → Text
  unfolding replace_offset
  canonical_instant at = replace_offset 0 (runtime.isoformat at)

  -- at - timedelta(seconds=10), before the first instant an OverflowError
  unfoldable pub ten_seconds_before : ℕ → Result Error ℕ
  ten_seconds_before at =
      if ltb at expected_duration then err overflow else ok (at - expected_duration)

  unfoldable pub interval_is_locked_ten_seconds : Text → Text → Result Error Bool
  unfolding validate_rfc3339_utc is_locked_delta
  interval_is_locked_ten_seconds started_at ended_at =
      and_then (validate_rfc3339_utc started_at) λ start.
        and_then (validate_rfc3339_utc ended_at)
          λ end. ok (if ltb end start then false else is_locked_delta (end - start))
