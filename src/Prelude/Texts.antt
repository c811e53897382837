-- ===== src/Prelude/Texts.antt =====
-- Python's `str` as the list of its code points, with equality and the lexicographic order.
use Prim.Native.Nat.{ℕ, compare, Ordering}
use Prim.Native.Char.{code}
use Prim.Native.String.{String}
use mathlib.Core.Path.{◌≡◌, refl}
use mathlib.Core.Bool.{Bool, true, false, ◌&&◌}
use mathlib.Core.List.{List, [], ◌∷◌}
use native.Mathlib.Omega.{arith}
use edge_evidence_showcase.Prelude.Tests.{◌==◌}
use edge_evidence_showcase.Prelude.Sorting.{Order}

abbrev pub Text : Type 0
Text = List ℕ

-- The code points of a literal. It stays shut, so that a literal is read as one unknown.
unfoldable pub text : String → Text
text String.[] = []
text (String.◌∷◌ c s) = code c ∷ text s

unfoldable pub text_eq : Text → Text → Bool
text_eq [] [] = true
text_eq (a ∷ s) (b ∷ t) = (a == b) && text_eq s t
text_eq _ _ = false

pub text_eq_refl : (s : Text) → text_eq s s ≡ true
unfolding text_eq
text_eq_refl [] = refl
text_eq_refl (a ∷ s) = ground (arith, text_eq_refl s)

pub text_eq→eq : (s t : Text) → text_eq s t ≡ true → s ≡ t
unfolding text_eq
text_eq→eq [] [] h = refl
text_eq→eq (a ∷ s) (b ∷ t) h = ground (arith, text_eq→eq s t)
text_eq→eq [] (b ∷ t) h = cc
text_eq→eq (a ∷ s) [] h = cc

pub eq→text_eq : (s t : Text) → s ≡ t → text_eq s t ≡ true
eq→text_eq s t h = rw h (text_eq_refl t)

-- The order of Python's `str`, which is also that of SQLite's BINARY collation.
unfoldable pub text_compare : Text → Text → Ordering
text_compare [] [] = Ordering.eq
text_compare [] (b ∷ t) = Ordering.lt
text_compare (a ∷ s) [] = Ordering.gt
text_compare (a ∷ s) (b ∷ t) = elim (compare a b) [
  | Ordering.lt ↦ Ordering.lt
  | Ordering.eq ↦ text_compare s t
  | Ordering.gt ↦ Ordering.gt
]

pub text_compare-same : (s t : Text) → text_compare s t ≡ Ordering.eq → s ≡ t
unfolding text_compare
text_compare-same [] [] h = refl
text_compare-same [] (b ∷ t) h = cc
text_compare-same (a ∷ s) [] h = cc
text_compare-same (a ∷ s) (b ∷ t) h = ground (arith, text_compare-same s t)

pub text_compare-flip :
    (s t : Text) → text_compare s t ≡ Ordering.gt → text_compare t s ≡ Ordering.lt
unfolding text_compare
text_compare-flip [] [] h = cc
text_compare-flip [] (b ∷ t) h = cc
text_compare-flip (a ∷ s) [] h = refl
text_compare-flip (a ∷ s) (b ∷ t) h = ground (arith, text_compare-flip s t)

pub text_compare_back :
    (s t : Text) → text_compare s t ≡ Ordering.eq → text_compare t s ≡ Ordering.eq
unfolding text_compare
text_compare_back [] [] h = refl
text_compare_back [] (b ∷ t) h = cc
text_compare_back (a ∷ s) [] h = cc
text_compare_back (a ∷ s) (b ∷ t) h = ground (arith, text_compare_back s t)

abbrev pub text_order : Order Text
text_order = record { test = text_compare; same = text_compare-same; flip = text_compare-flip }
