-- ===== src/Contracts/Split.antt =====
-- `str.split(sep)` and `sep.join(parts)` at one separating character.
use edge_evidence_showcase.Prelude.{
  ℕ, ◌≡◌, refl, ap, ◌∙◌, Bool, false, ◌||◌, List, [], ◌∷◌, ◌++◌, Text, arith, ◌==◌, inl, inr, ==→eq,
  Each, Bool-cases, if◌then◌else◌,
}

-- c in s
unfoldable pub has_char : ℕ → Text → Bool
has_char c [] = false
has_char c (d ∷ s) = d == c || has_char c s

extend_first : ℕ → List Text → List Text
extend_first c [] = (c ∷ []) ∷ []
extend_first c (p ∷ ps) = (c ∷ p) ∷ ps

unfoldable pub split : ℕ → Text → List Text
unfolding extend_first
split sep [] = [] ∷ []
split sep (c ∷ s) = let rest = split sep s in if c == sep then [] ∷ rest else extend_first c rest

unfoldable pub join : ℕ → List Text → Text
join sep [] = []
join sep (p ∷ []) = p
join sep (p ∷ q ∷ ps) = p ++ sep ∷ join sep (q ∷ ps)

extend_first-ne-nil : (c : ℕ) (ps : List Text) → extend_first c ps ≡ [] → ⊥
unfolding extend_first
extend_first-ne-nil c [] h = cc
extend_first-ne-nil c (p ∷ ps) h = cc

pub split-ne-nil : (sep : ℕ) (s : Text) → split sep s ≡ [] → ⊥
unfolding split
split-ne-nil sep [] h = cc
split-ne-nil sep (c ∷ s) h = elim (Bool-cases (c == sep)) [
  | inl e ↦ let h' = rw e at h in cc
  | inr e ↦ let h' = rw e at h in extend_first-ne-nil c (split sep s) h'
]

join-extend_first :
    (sep c : ℕ) (ps : List Text) → (ps ≡ [] → ⊥) → join sep (extend_first c ps) ≡ c ∷ join sep ps
unfolding join extend_first
join-extend_first sep c [] h = absurd (h refl)
join-extend_first sep c (p ∷ []) h = refl
join-extend_first sep c (p ∷ q ∷ ps) h = refl

join-nil_first : (sep : ℕ) (ps : List Text) → (ps ≡ [] → ⊥) → join sep ([] ∷ ps) ≡ sep ∷ join sep ps
unfolding join
join-nil_first sep [] h = absurd (h refl)
join-nil_first sep (q ∷ ps) h = refl

-- Joining the parts of a text gives the text back.
pub join-split : (sep : ℕ) (s : Text) → join sep (split sep s) ≡ s
unfolding split
join-split sep [] = unfold join in refl
join-split sep (c ∷ s) = elim (Bool-cases (c == sep)) [
  | inl e ↦
      rw e (
        join-nil_first sep (split sep s) (split-ne-nil sep s)
        ∙ cc (join-split sep s, ==→eq c sep e))
  | inr e ↦ rw e (
      join-extend_first sep c (split sep s) (split-ne-nil sep s)
      ∙ ap (λ r. c ∷ r) (join-split sep s))
]

abbrev pub Lacks : ℕ → Text → Type 0
Lacks sep p = has_char sep p ≡ false

has_char-cons : (b c : ℕ) (s : Text) → Lacks b (c ∷ s) → ((c == b) ≡ false) × Lacks b s
unfolding has_char
has_char-cons b c s h = ground arith

extend_first-Lacks :
    (sep c : ℕ) (ps : List Text)
    → (c == sep) ≡ false
    → Each (Lacks sep) ps
    → Each (Lacks sep) (extend_first c ps)
unfolding extend_first has_char
extend_first-Lacks sep c [] e h = (rw e refl, tt)
extend_first-Lacks sep c (p ∷ ps) e h = (rw e h.0, h.1)

-- No part holds the separator.
pub split-Lacks : (sep : ℕ) (s : Text) → Each (Lacks sep) (split sep s)
unfolding split
split-Lacks sep [] = (unfold has_char in refl, tt)
split-Lacks sep (c ∷ s) = elim (Bool-cases (c == sep)) [
  | inl e ↦ rw e (unfold has_char in refl, split-Lacks sep s)
  | inr e ↦ rw e (extend_first-Lacks sep c (split sep s) e (split-Lacks sep s))
]

-- The parts hold no character that the text lacks.
pub split-Lacks_other : (sep b : ℕ) (s : Text) → Lacks b s → Each (Lacks b) (split sep s)
unfolding split has_char
split-Lacks_other sep b [] h = (refl, tt)
split-Lacks_other sep b (c ∷ s) h =
    let (head, rest) = has_char-cons b c s h in
    elim (Bool-cases (c == sep)) [
      | inl e ↦ rw e (refl, split-Lacks_other sep b s rest)
      | inr e ↦ rw e (extend_first-Lacks b c (split sep s) head (split-Lacks_other sep b s rest))
    ]

split_last : (sep : ℕ) (p : Text) → Lacks sep p → split sep p ≡ p ∷ []
unfolding split has_char
split_last sep [] h = refl
split_last sep (c ∷ p) h = elim (Bool-cases (c == sep)) [
  | inl e ↦ ground arith
  | inr e ↦ rw e (rw (split_last sep p (rw e at h)) refl)
]

split_first : (sep : ℕ) (p s : Text) → Lacks sep p → split sep (p ++ sep ∷ s) ≡ p ∷ split sep s
unfolding split has_char
split_first sep [] s h = ground arith
split_first sep (c ∷ p) s h = elim (Bool-cases (c == sep)) [
  | inl e ↦ ground arith
  | inr e ↦ rw e (rw (split_first sep p s (rw e at h)) refl)
]

-- Splitting joined parts gives the parts back.
pub split-join :
    (sep : ℕ) (p : Text) (ps : List Text)
    → Each (Lacks sep) (p ∷ ps)
    → split sep (join sep (p ∷ ps)) ≡ p ∷ ps
unfolding join
split-join sep p [] h = split_last sep p h.0
split-join sep p (q ∷ ps) h =
    split_first sep p (join sep (q ∷ ps)) h.0 ∙ ap (λ r. p ∷ r) (split-join sep q ps h.1)
