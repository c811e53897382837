-- ===== src/Prelude/Sorting.antt =====
-- Python's `sorted(set(xs))` and a stable `sorted(xs, key=…)`, by insertion under a three-way test.
use Prim.Native.Nat.{Ordering}
use mathlib.Core.Path.{◌≡◌, refl, ◌∙◌}
use mathlib.Core.Logic.{◌⊎◌, inl, inr, ◌↔◌}
use mathlib.Core.List.{List, [], ◌∷◌}
use edge_evidence_showcase.Prelude.Lists.{In}

-- A strict order given by its three-way test.
pub record Order (A : Type 0) : Type 0 where
  pub test : A → A → Ordering
  pub same : (a b : A) → test a b ≡ Ordering.eq → a ≡ b
  pub flip : (a b : A) → test a b ≡ Ordering.gt → test b a ≡ Ordering.lt

pub Ordering-cases : (o : Ordering) → (o ≡ Ordering.lt) ⊎ ((o ≡ Ordering.eq) ⊎ (o ≡ Ordering.gt))
Ordering-cases Ordering.lt = inl refl
Ordering-cases Ordering.eq = inr (inl refl)
Ordering-cases Ordering.gt = inr (inr refl)

module _ {A : Type 0} (test : A → A → Ordering) where
  -- An equal element is already there.
  unfoldable pub insert_new : A → List A → List A
  insert_new x [] = x ∷ []
  insert_new x (y ∷ ys) =
      let rest = insert_new x ys in
      elim (test x y) [ Ordering.lt ↦ x ∷ y ∷ ys | Ordering.eq ↦ y ∷ ys | Ordering.gt ↦ y ∷ rest ]

  -- sorted(set(xs))
  unfoldable pub sorted_set : List A → List A
  unfolding insert_new
  sorted_set [] = []
  sorted_set (x ∷ xs) = insert_new x (sorted_set xs)

  -- Before the first element that is not smaller.
  unfoldable pub insert_before : A → List A → List A
  insert_before x [] = x ∷ []
  insert_before x (y ∷ ys) =
      let rest = insert_before x ys in
      elim (test x y) [
        | Ordering.lt ↦ x ∷ y ∷ ys
        | Ordering.eq ↦ x ∷ y ∷ ys
        | Ordering.gt ↦ y ∷ rest
      ]

  unfoldable pub sorted : List A → List A
  unfolding insert_before
  sorted [] = []
  sorted (x ∷ xs) = insert_before x (sorted xs)

  abbrev pub IsAscending : List A → Type 0
  IsAscending [] = Unit
  IsAscending (x ∷ []) = Unit
  IsAscending (x ∷ y ∷ ys) = (test x y ≡ Ordering.lt) × IsAscending (y ∷ ys)

module _ {A : Type 0} (test : A → A → Ordering) (x y : A) (ys : List A) where
  pub insert_before_stop :
      (test x y ≡ Ordering.lt) ⊎ (test x y ≡ Ordering.eq)
      → insert_before test x (y ∷ ys) ≡ x ∷ y ∷ ys
  unfolding insert_before
  insert_before_stop (inl e) = rw (e, insert_before)
  insert_before_stop (inr e) = rw (e, insert_before)

  pub insert_before_go :
      test x y ≡ Ordering.gt → insert_before test x (y ∷ ys) ≡ y ∷ insert_before test x ys
  unfolding insert_before
  insert_before_go e = rw (e, insert_before)

  insert_new_lt : test x y ≡ Ordering.lt → insert_new test x (y ∷ ys) ≡ x ∷ y ∷ ys
  unfolding insert_new
  insert_new_lt e = rw (e, insert_new)

  insert_new_eq : test x y ≡ Ordering.eq → insert_new test x (y ∷ ys) ≡ y ∷ ys
  unfolding insert_new
  insert_new_eq e = rw (e, insert_new)

  insert_new_gt : test x y ≡ Ordering.gt → insert_new test x (y ∷ ys) ≡ y ∷ insert_new test x ys
  unfolding insert_new
  insert_new_gt e = rw (e, insert_new)

swap_In :
    {A : Type 0} (a x y : A) (ys zs : List A)
    → (In a zs ↔ In a (x ∷ ys))
    → (In a (y ∷ zs) ↔ In a (x ∷ y ∷ ys))
swap_In a x y ys zs h = (there, back)
  where
    there : In a (y ∷ zs) → In a (x ∷ y ∷ ys)
    there (inl e) = inr (inl e)
    there (inr k) = elim (h.0 k) [ inl e ↦ inl e | inr m ↦ inr (inr m) ]

    back : In a (x ∷ y ∷ ys) → In a (y ∷ zs)
    back (inl e) = inr (h.1 (inl e))
    back (inr (inl e)) = inl e
    back (inr (inr m)) = inr (h.1 (inr m))

grow_In :
    {A : Type 0} (a x : A) (xs ys zs : List A)
    → (In a zs ↔ In a (x ∷ ys))
    → (In a ys ↔ In a xs)
    → (In a zs ↔ In a (x ∷ xs))
grow_In a x xs ys zs h k = (there, back)
  where
    there : In a zs → In a (x ∷ xs)
    there m = elim (h.0 m) [ inl e ↦ inl e | inr l ↦ inr (k.0 l) ]

    back : In a (x ∷ xs) → In a zs
    back (inl e) = h.1 (inl e)
    back (inr l) = h.1 (inr (k.1 l))

module _ {A : Type 0} (test : A → A → Ordering) (a : A) where
  insert_before-In : (x : A) (ys : List A) → In a (insert_before test x ys) ↔ In a (x ∷ ys)
  insert_before-In x [] = unfold insert_before in (λ h. h, λ h. h)
  insert_before-In x (y ∷ ys) = elim (Ordering-cases (test x y)) [
    | inl e ↦ rw (insert_before_stop test x y ys (inl e)) (λ h. h, λ h. h)
    | inr (inl e) ↦ rw (insert_before_stop test x y ys (inr e)) (λ h. h, λ h. h)
    | inr (inr e) ↦
        rw (insert_before_go test x y ys e)
          (swap_In a x y ys (insert_before test x ys) (insert_before-In x ys))
  ]

  -- A sorted list has the elements of the list.
  pub sorted-In : (xs : List A) → In a (sorted test xs) ↔ In a xs
  unfolding sorted
  sorted-In [] = (λ h. h, λ h. h)
  sorted-In (x ∷ xs) =
      grow_In a x xs (sorted test xs) (insert_before test x (sorted test xs))
        (insert_before-In x (sorted test xs)) (sorted-In xs)

module _ {A : Type 0} (o : Order A) where
  open o use {test, same, flip}

  already_In : (a x y : A) (ys : List A) → x ≡ y → (In a (y ∷ ys) ↔ In a (x ∷ y ∷ ys))
  already_In a x y ys e = (λ h. inr h, back)
    where
      back : In a (x ∷ y ∷ ys) → In a (y ∷ ys)
      back (inl h) = inl (h ∙ e)
      back (inr h) = h

  insert_new-In : (a x : A) (ys : List A) → In a (insert_new test x ys) ↔ In a (x ∷ ys)
  insert_new-In a x [] = unfold insert_new in (λ h. h, λ h. h)
  insert_new-In a x (y ∷ ys) = elim (Ordering-cases (test x y)) [
    | inl e ↦ rw (insert_new_lt test x y ys e) (λ h. h, λ h. h)
    | inr (inl e) ↦ rw (insert_new_eq test x y ys e) (already_In a x y ys (same x y e))
    | inr (inr e) ↦
        rw (insert_new_gt test x y ys e)
          (swap_In a x y ys (insert_new test x ys) (insert_new-In a x ys))
  ]

  pub sorted_set-In : (a : A) (xs : List A) → In a (sorted_set test xs) ↔ In a xs
  unfolding sorted_set
  sorted_set-In a [] = (λ h. h, λ h. h)
  sorted_set-In a (x ∷ xs) =
      grow_In a x xs (sorted_set test xs) (insert_new test x (sorted_set test xs))
        (insert_new-In a x (sorted_set test xs)) (sorted_set-In a xs)

  insert_new-IsAscending_below :
      (y x : A) (ys : List A)
      → IsAscending test (y ∷ ys)
      → test y x ≡ Ordering.lt
      → IsAscending test (y ∷ insert_new test x ys)
  insert_new-IsAscending_below y x [] h l = unfold insert_new in (l, tt)
  insert_new-IsAscending_below y x (z ∷ zs) h l = elim (Ordering-cases (test x z)) [
    | inl e ↦ rw (insert_new_lt test x z zs e) (l, (e, h.1))
    | inr (inl e) ↦ rw (insert_new_eq test x z zs e) h
    | inr (inr e) ↦
        rw (insert_new_gt test x z zs e) (h.0, insert_new-IsAscending_below z x zs h.1 (flip x z e))
  ]

  insert_new-IsAscending :
      (x : A) (ys : List A) → IsAscending test ys → IsAscending test (insert_new test x ys)
  insert_new-IsAscending x [] h = unfold insert_new in tt
  insert_new-IsAscending x (y ∷ ys) h = elim (Ordering-cases (test x y)) [
    | inl e ↦ rw (insert_new_lt test x y ys e) (e, h)
    | inr (inl e) ↦ rw (insert_new_eq test x y ys e) h
    | inr (inr e) ↦
        rw (insert_new_gt test x y ys e) (insert_new-IsAscending_below y x ys h (flip x y e))
  ]

  pub sorted_set-IsAscending : (xs : List A) → IsAscending test (sorted_set test xs)
  unfolding sorted_set
  sorted_set-IsAscending [] = tt
  sorted_set-IsAscending (x ∷ xs) =
      insert_new-IsAscending x (sorted_set test xs) (sorted_set-IsAscending xs)
