-- ===== src/Processor/Registration/Identities.antt =====
-- The URI of an occurrence (components/processor-worker/apps/edge_agent/register.py) determines its
-- source, its session and its sequence number.
use edge_evidence_showcase.Prelude.{
  ℕ, zero, suc, ◌+◌, ◌-◌, ◌*◌, ◌/◌, ◌%◌, ◌<◌, ◌≤◌, ◌≡◌, refl, sym, ap, ◌∙◌, true, false, Bool-cases,
  &&-true, inl, inr, [], ◌∷◌, ◌++◌, Text, arith, ltb, ◌==◌,
}
use edge_evidence_showcase.Contracts.{slash}
use edge_evidence_showcase.Contracts.Split.{has_char}
use edge_evidence_showcase.Processor.Identity.{at_end, slash-cancel, append-cancel, at_end-Lacks}
use edge_evidence_showcase.Processor.Json.{digits, decimal}
use edge_evidence_showcase.Processor.Instants.{
  is_digit, is_source_head, is_source_char, source_tail, matches_source_id,
}
use edge_evidence_showcase.Processor.Registration.{occurrence_uri_base, occurrence_uri_name}

-- The number that digits name, behind those of `seen`.
number : ℕ → Text → ℕ
number seen [] = seen
number seen (c ∷ s) = number (seen * 10 + (c - b'0')) s

number-last :
    (seen : ℕ) (s : Text) (c : ℕ) → number seen (s ++ c ∷ []) ≡ number seen s * 10 + (c - b'0')
unfolding number
number-last seen [] c = refl
number-last seen (d ∷ s) c = number-last (seen * 10 + (d - b'0')) s c

digits-number : (fuel n : ℕ) → n < fuel → number 0 (digits fuel n) ≡ n
unfolding digits number
digits-number zero n h = omega (arith, h)
digits-number (suc fuel) n h = elim (Bool-cases (ltb n 10)) [
  | inl e ↦ rw e (omega arith)
  | inr e ↦
      let large : 10 ≤ n = ground arith in
      rw e (
        rw
          (
            number-last 0 (digits fuel (n / 10)) (b'0' + n % 10),
            digits-number fuel (n / 10) (omega (arith, large, h)),
          )
          (omega arith))
]

decimal-number : (n : ℕ) → number 0 (decimal n) ≡ n
unfolding decimal
decimal-number n = digits-number (suc n) n (omega arith)

char-Lacks : (c : ℕ) → is_source_char c ≡ true → (c == slash) ≡ false
unfolding is_source_char is_source_head is_digit
char-Lacks c h = ground arith

tail-Lacks : (n : ℕ) (s : Text) → source_tail n s ≡ true → has_char slash s ≡ false
unfolding source_tail has_char
tail-Lacks n [] h = refl
tail-Lacks zero (c ∷ s) h = at_end-Lacks (c ∷ s) h
tail-Lacks (suc n) (c ∷ s) h = elim (Bool-cases (at_end (c ∷ s))) [
  | inl e ↦ at_end-Lacks (c ∷ s) e
  | inr e ↦
      let (a, b) = &&-true (is_source_char c) (source_tail n s) (ground arith) in
      rw (char-Lacks c a, tail-Lacks n s b) refl
]

source_id-Lacks : (s : Text) → matches_source_id s ≡ true → has_char slash s ≡ false
unfolding matches_source_id has_char
source_id-Lacks [] h = refl
source_id-Lacks (c ∷ s) h =
    let (a, b) = &&-true (is_source_head c) (source_tail 127 s) h in
    rw (char-Lacks c (unfold is_source_char in (rw a refl)), tail-Lacks 127 s b) refl

-- The identity of an occurrence determines it: if two sources and two sessions pass the pattern of
-- identifiers and their occurrences have the same URI, then sources, sessions and sequence numbers
-- are the same.
pub occurrence_uri_name-same :
    (source session source' session' : Text) (n n' : ℕ)
    → matches_source_id source ≡ true
    → matches_source_id source' ≡ true
    → matches_source_id session ≡ true
    → matches_source_id session' ≡ true
    → occurrence_uri_name source session n ≡ occurrence_uri_name source' session' n'
    → (source ≡ source') × (session ≡ session') × (n ≡ n')
unfolding occurrence_uri_name
occurrence_uri_name-same source session source' session' n n' a a' b b' e =
    let (p, e') =
      slash-cancel source source' (session ++ slash ∷ decimal n) (session' ++ slash ∷ decimal n')
        (source_id-Lacks source a) (source_id-Lacks source' a')
        (append-cancel occurrence_uri_base _ _ e) in
    let (q, d) =
      slash-cancel session session' (decimal n) (decimal n') (source_id-Lacks session b)
        (source_id-Lacks session' b') e' in
    (p, q, sym (decimal-number n) ∙ (ap (number 0) d ∙ decimal-number n'))
