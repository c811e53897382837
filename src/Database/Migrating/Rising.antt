-- ===== src/Database/Migrating/Rising.antt =====
-- Lists of migrations by their version: sorting, and that the order determines the list.
use edge_evidence_showcase.Prelude.{
  ℕ, ◌<◌, ◌≡◌, ◌≢◌, refl, sym, ◌∙◌, ap, ap₂, List, [], ◌∷◌, Text, In, Each, inl, inr, arith,
  compare, Ordering,
}
use edge_evidence_showcase.Prelude.Sorting.{
  sorted, insert_before, Ordering-cases, insert_before_stop, insert_before_go,
}

abbrev pub by_version : ℕ × Text → ℕ × Text → Ordering
by_version m n = compare m.0 n.0

-- Each version is below those behind it.
abbrev pub Rising : List (ℕ × Text) → Type 0
Rising [] = Unit
Rising (m ∷ ms) = Each (λ n. m.0 < n.0) ms × Rising ms

-- No version occurs twice.
abbrev pub Distinct : List (ℕ × Text) → Type 0
Distinct [] = Unit
Distinct (m ∷ ms) = Each (λ n. n.0 ≢ m.0) ms × Distinct ms

module _ (P : ℕ × Text → Type 0) where
  Each-insert :
      (x : ℕ × Text) (ms : List (ℕ × Text))
      → P x
      → Each P ms
      → Each P (insert_before by_version x ms)
  unfolding insert_before
  Each-insert x [] p h = (p, tt)
  Each-insert x (y ∷ ys) p h = elim (Ordering-cases (by_version x y)) [
    | inl e ↦ rw (insert_before_stop by_version x y ys (inl e)) (p, h)
    | inr (inl e) ↦ rw (insert_before_stop by_version x y ys (inr e)) (p, h)
    | inr (inr e) ↦ rw (insert_before_go by_version x y ys e) (h.0, Each-insert x ys p h.1)
  ]

  Each-sorted : (ms : List (ℕ × Text)) → Each P ms → Each P (sorted by_version ms)
  unfolding sorted
  Each-sorted [] h = tt
  Each-sorted (x ∷ ms) h = Each-insert x (sorted by_version ms) h.0 (Each-sorted ms h.1)

below-Each :
    (m n : ℕ) (ms : List (ℕ × Text)) → m < n → Each (λ k. n < k.0) ms → Each (λ k. m < k.0) ms
below-Each m n [] h k = tt
below-Each m n (x ∷ ms) h k = (omega arith, below-Each m n ms h k.1)

insert_before-Rising :
    (x : ℕ × Text) (ms : List (ℕ × Text))
    → Each (λ n. n.0 ≢ x.0) ms
    → Rising ms
    → Rising (insert_before by_version x ms)
unfolding insert_before
insert_before-Rising x [] d h = (tt, tt)
insert_before-Rising x (y ∷ ys) d h = elim (Ordering-cases (by_version x y)) [
  | inl e ↦
      rw (insert_before_stop by_version x y ys (inl e))
        ((ground arith, below-Each x.0 y.0 ys (ground arith) h.0), h)
  | inr (inl e) ↦ absurd (d.0 (ground arith))
  | inr (inr e) ↦
      rw (insert_before_go by_version x y ys e)
        (Each-insert (λ k. y.0 < k.0) x ys (ground arith) h.0, insert_before-Rising x ys d.1 h.1)
]

pub sorted-Rising : (ms : List (ℕ × Text)) → Distinct ms → Rising (sorted by_version ms)
unfolding sorted
sorted-Rising [] d = tt
sorted-Rising (x ∷ ms) d =
    insert_before-Rising x (sorted by_version ms) (Each-sorted (λ n. n.0 ≢ x.0) ms d.0)
      (sorted-Rising ms d.1)

pub Each-In :
    (P : ℕ × Text → Type 0) (x : ℕ × Text) (ms : List (ℕ × Text)) → Each P ms → In x ms → P x
Each-In P x [] h i = absurd i
Each-In P x (m ∷ ms) h (inl e) = rw e h.0
Each-In P x (m ∷ ms) h (inr i) = Each-In P x ms h.1 i

heads :
    (a b : ℕ × Text) (ms ns : List (ℕ × Text))
    → Rising (a ∷ ms)
    → Rising (b ∷ ns)
    → In a (b ∷ ns)
    → In b (a ∷ ms)
    → a ≡ b
heads a b ms ns h k (inl e) j = e
heads a b ms ns h k (inr i) (inl e) = sym e
heads a b ms ns h k (inr i) (inr j) =
    let u = Each-In (λ n. b.0 < n.0) a ns k.0 i in
    let v = Each-In (λ n. a.0 < n.0) b ms h.0 j in absurd (omega arith)

tails :
    (x a b : ℕ × Text) (ms ns : List (ℕ × Text))
    → Rising (a ∷ ms)
    → a ≡ b
    → In x ms
    → In x (b ∷ ns)
    → In x ns
tails x a b ms ns h e i (inr j) = j
tails x a b ms ns h e i (inl q) =
    let v : a.0 < x.0 = Each-In (λ n. a.0 < n.0) x ms h.0 i in
    let w : x.0 ≡ a.0 = ap (λ n. n.0) (q ∙ sym e) in absurd (omega arith)

-- Rising lists of the same elements are equal.
pub Rising-same :
    (ms ns : List (ℕ × Text))
    → Rising ms
    → Rising ns
    → ((x : ℕ × Text) → In x ms → In x ns)
    → ((x : ℕ × Text) → In x ns → In x ms)
    → ms ≡ ns
Rising-same [] [] h k f g = refl
Rising-same [] (b ∷ ns) h k f g = absurd (g b (inl refl))
Rising-same (a ∷ ms) [] h k f g = absurd (f a (inl refl))
Rising-same (a ∷ ms) (b ∷ ns) h k f g =
    let e = heads a b ms ns h k (f a (inl refl)) (g b (inl refl)) in
    ap₂ (λ x xs. x ∷ xs) e
      (Rising-same ms ns h.1 k.1 (λ x i. tails x a b ms ns h e i (f x (inr i)))
        (λ x i. tails x b a ns ms k (sym e) i (g x (inr i))))
