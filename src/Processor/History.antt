-- ===== src/Processor/History.antt =====
-- components/processor-worker/apps/edge_agent/migration_history.py: the histories that a command
-- accepts. A minimum version is a natural number.
use edge_evidence_showcase.Prelude.{
  ℕ, zero, suc, ◌+◌, ◌-◌, ◌≤◌, ◌<◌, ◌≡◌, ◌↔◌, refl, Bool, true, Bool-cases, List, [], ◌∷◌, Text,
  text, text_eq_refl, In, inl, inr, ◌⊎◌, any, take, length, arith, eq→==, ◌==◌, ==→eq,
}
use edge_evidence_showcase.Database.Statements.{migration_eq, history_eq}
use edge_evidence_showcase.Authority.History.{history_eq→eq}

-- CANONICAL_HISTORY
abbrev pub canonical_history : List (ℕ × Text)
canonical_history =
    (1, text "repository_foundation")
    ∷ (2, text "ledger_and_outbox")
    ∷ (3, text "crash_reconciliation")
    ∷ (4, text "derived_processing")
    ∷ (5, text "mobile_recording_import")
    ∷ (6, text "rtsp_capture")
    ∷ (7, text "multi_source_occurrence_assertions")
    ∷ (8, text "enforce_occurrence_assertion_cycle")
    ∷ (9, text "verified_replication")
    ∷ (10, text "provider_neutral_replication_targets")
    ∷ []

-- range(start, start + count)
unfoldable pub range_from : ℕ → ℕ → List ℕ
range_from start zero = []
range_from start (suc count) = start ∷ range_from (suc start) count

-- range(start, stop)
abbrev pub range : ℕ → ℕ → List ℕ
range start stop = range_from start (stop - start)

-- The test of accepts_from on the recorded history.
unfoldable pub accepts_from : List (ℕ × Text) → ℕ → Bool
unfolding history_eq range_from
accepts_from recorded minimum_version =
    any (λ version. history_eq recorded (take version canonical_history))
      (range minimum_version (length canonical_history + 1))

range_from-In :
    (start count n : ℕ) → In n (range_from start count) ↔ ((start ≤ n) × (n < start + count))
unfolding range_from
range_from-In start zero n = (λ i. absurd i, λ (a, b). absurd (omega arith))
range_from-In start (suc count) n =
    let (f, g) = range_from-In (suc start) count n in (go f, λ (a, b). back g a b)
  where
    go :
        (In n (range_from (suc start) count) → (suc start ≤ n) × (n < suc start + count))
        → (n ≡ start) ⊎ In n (range_from (suc start) count)
        → (start ≤ n) × (n < start + suc count)
    go f (inl e) = (omega arith, omega arith)
    go f (inr i) = let (a, b) = f i in (omega arith, omega arith)

    back :
        ((suc start ≤ n) × (n < suc start + count) → In n (range_from (suc start) count))
        → start ≤ n
        → n < start + suc count
        → (n ≡ start) ⊎ In n (range_from (suc start) count)
    back g a b = elim (Bool-cases (n == start)) [
      | inl e ↦ inl (==→eq n start e)
      | inr e ↦ inr (g (ground arith, omega arith))
    ]

module _ {A : Type 0} (p : A → Bool) where
  any-In : (xs : List A) → any p xs ≡ true → (x : A) × In x xs × (p x ≡ true)
  any-In [] h = cc
  any-In (x ∷ xs) h = elim (Bool-cases (p x)) [
    | inl e ↦ (x, inl refl, e)
    | inr e ↦ let (y, i, q) = any-In xs (ground arith) in (y, inr i, q)
  ]

  In-any : (x : A) (xs : List A) → In x xs → p x ≡ true → any p xs ≡ true
  In-any x [] i q = absurd i
  In-any x (y ∷ xs) (inl e) q = ground arith
  In-any x (y ∷ xs) (inr i) q = ground (arith, In-any x xs i q)

history_eq_refl : (ms : List (ℕ × Text)) → history_eq ms ms ≡ true
unfolding history_eq migration_eq
history_eq_refl [] = refl
history_eq_refl (m ∷ ms) = ground (arith, eq→== m.0 m.0 refl, text_eq_refl m.1, history_eq_refl ms)

-- A history is accepted from a minimum version if and only if it is the first n entries of the
-- canonical history, for an n between the minimum version and 10.
pub accepts_from_iff :
    (recorded : List (ℕ × Text)) (minimum_version : ℕ)
    → (accepts_from recorded minimum_version ≡ true)
      ↔ ((n : ℕ) × (minimum_version ≤ n) × (n ≤ 10) × (recorded ≡ take n canonical_history))
unfolding accepts_from
accepts_from_iff recorded minimum_version = (
  λ h.
      let (n, i, q) = any-In _ (range minimum_version 11) h in
      let (a, b) = (range_from-In minimum_version (11 - minimum_version) n).0 i in
      (n, a, omega arith, history_eq→eq recorded (take n canonical_history) q),
  λ (n, a, b, e).
      In-any _ n (range minimum_version 11)
        ((range_from-In minimum_version (11 - minimum_version) n).1 (a, omega arith))
        (rw e (history_eq_refl (take n canonical_history))),
)
