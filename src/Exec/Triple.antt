-- ===== src/Exec/Triple.antt =====
-- Statements about a call by how it ends, one rule for each way to build one.
use edge_evidence_showcase.Prelude.{◌≡◌, refl, subst, Bool, true, false, if◌then◌else◌}
use edge_evidence_showcase.Exec.{
  Result, ok, err, Exec, pure, raise, lift, handle, catch, close_after, finally, continue, ◌>>=◌,
}

-- `Q` holds of a result and the state that comes with it, `E` of an exception.
abbrev pub Post : {S X A : Type 0} → (A → S → Type 0) → (X → S → Type 0) → Result X A × S → Type 0
Post Q E (ok a, s) = Q a s
Post Q E (err x, s) = E x s

pub record Triple {S X A : Type 0} (P : S → Type 0) (m : Exec S X A) (Q : A → S → Type 0)
    (E : X → S → Type 0) : Type 0 where
  pub at : (s : S) → P s → Post Q E (m s)

-- `P` holds again, whether the call returns or raises.
abbrev pub Keeps : {S X A : Type 0} → (S → Type 0) → Exec S X A → Type 0
Keeps P m = Triple P m (λ _. P) (λ _. P)

module _ {S X A : Type 0} {P : S → Type 0} {Q : A → S → Type 0} {E : X → S → Type 0} where
  pub Triple-pure : (a : A) → ((s : S) → P s → Q a s) → Triple P (pure a) Q E
  Triple-pure a h = record { at = h }

  pub Triple-raise : (x : X) → ((s : S) → P s → E x s) → Triple P (raise x) Q E
  Triple-raise x h = record { at = h }

  pub Triple-lift :
      (r : Result X A)
      → ((a : A) → r ≡ ok a → (s : S) → P s → Q a s)
      → ((x : X) → r ≡ err x → (s : S) → P s → E x s)
      → Triple P (lift r) Q E
  Triple-lift (ok a) h k = record { at = h a refl }
  Triple-lift (err x) h k = record { at = k x refl }

  pub Triple-if :
      (b : Bool) (m n : Exec S X A)
      → (b ≡ true → Triple P m Q E)
      → (b ≡ false → Triple P n Q E)
      → Triple P (if b then m else n) Q E
  Triple-if true m n km kn = km refl
  Triple-if false m n km kn = kn refl

  pub Triple-catch :
      (m : Exec S X A) (h : X → Exec S X A) (R : X → S → Type 0)
      → Triple P m Q R
      → ((x : X) → Triple (R x) (h x) Q E)
      → Triple P (catch m h) Q E
  Triple-catch m h R km kh = record { at = λ s p. go (m s) (km.at s p) }
    where
      go : (r : Result X A × S) → Post Q R r → Post Q E (handle h r)
      go (ok a, t) q = q
      go (err x, t) q = (kh x).at t q

  pub Triple-finally :
      (m : Exec S X A) (f : S → S)
      → Triple P m (λ a s. Q a (f s)) (λ x s. E x (f s))
      → Triple P (finally m f) Q E
  Triple-finally m f km = record { at = λ s p. go (m s) (km.at s p) }
    where
      go :
          (r : Result X A × S)
          → Post (λ a t. Q a (f t)) (λ x t. E x (f t)) r
          → Post Q E (close_after f r)
      go (ok a, t) q = q
      go (err x, t) q = q

  pub Triple-weaken :
      (m : Exec S X A) (P' : S → Type 0) (Q' : A → S → Type 0) (E' : X → S → Type 0)
      → Triple P' m Q' E'
      → ((s : S) → P s → P' s)
      → ((a : A) (s : S) → Q' a s → Q a s)
      → ((x : X) (s : S) → E' x s → E x s)
      → Triple P m Q E
  Triple-weaken m P' Q' E' km before after failed = record {
    at = λ s p. go (m s) (km.at s (before s p));
  }
    where
      go : (r : Result X A × S) → Post Q' E' r → Post Q E r
      go (ok a, t) q = after a t q
      go (err x, t) q = failed x t q

-- Two statements about one call.
pub Triple-and :
    {S X A : Type 0} {P P' : S → Type 0} {Q Q' : A → S → Type 0} {E E' : X → S → Type 0}
    {m : Exec S X A}
    → Triple P m Q E
    → Triple P' m Q' E'
    → Triple (λ s. P s × P' s) m (λ a s. Q a s × Q' a s) (λ x s. E x s × E' x s)
Triple-and {S} {X} {A} {P} {P'} {Q} {Q'} {E} {E'} {m} h k = record {
  at = λ s p. go (m s) (h.at s p.0) (k.at s p.1);
}
  where
    go :
        (r : Result X A × S)
        → Post Q E r
        → Post Q' E' r
        → Post (λ a s. Q a s × Q' a s) (λ x s. E x s × E' x s) r
    go (ok a, t) q q' = (q, q')
    go (err x, t) q q' = (q, q')

-- Of any call.
pub Triple-any :
    {S X A : Type 0} {P : S → Type 0} (m : Exec S X A) → Triple P m (λ _ _. Unit) (λ _ _. Unit)
Triple-any {S} {X} {A} m = record { at = λ s p. go (m s) }
  where
    go : (r : Result X A × S) → Post (λ _ _. Unit) (λ _ _. Unit) r
    go (ok a, t) = tt
    go (err x, t) = tt

module _ {S X A B : Type 0} {P : S → Type 0} {Q : B → S → Type 0} {E : X → S → Type 0} where
  pub Triple-bind :
      (m : Exec S X A) (f : A → Exec S X B) (R : A → S → Type 0)
      → Triple P m R E
      → ((a : A) → Triple (R a) (f a) Q E)
      → Triple P (m >>= f) Q E
  Triple-bind m f R km kf = record { at = λ s p. go (m s) (km.at s p) }
    where
      go : (r : Result X A × S) → Post R E r → Post Q E (continue f r)
      go (ok a, t) q = (kf a).at t q
      go (err x, t) q = q

-- The conclusion at a call whose result is known.
pub Triple-ok :
    {S X A : Type 0} {P : S → Type 0} {m : Exec S X A} {Q : A → S → Type 0} {E : X → S → Type 0}
    → Triple P m Q E
    → (s : S) (a : A) (t : S) → P s
    → m s ≡ (ok a, t)
    → Q a t
Triple-ok {Q} {E} k s a t p e = subst (Post Q E) e (k.at s p)

module _ {S X A : Type 0} {P : S → Type 0} where
  pub Keeps-pure : (a : A) → Keeps {X = X} P (pure a)
  Keeps-pure a = Triple-pure a (λ s p. p)

  pub Keeps-raise : (x : X) → Keeps {A = A} P (raise x)
  Keeps-raise x = Triple-raise x (λ s p. p)

  pub Keeps-lift : (r : Result X A) → Keeps P (lift r)
  Keeps-lift r = Triple-lift r (λ a h s p. p) (λ x h s p. p)

  pub Keeps-if :
      (b : Bool) (m n : Exec S X A) → Keeps P m → Keeps P n → Keeps P (if b then m else n)
  Keeps-if b m n km kn = Triple-if b m n (λ _. km) (λ _. kn)

  pub Keeps-finally :
      (m : Exec S X A) (f : S → S) → ((s : S) → P s → P (f s)) → Keeps P m → Keeps P (finally m f)
  Keeps-finally m f h k =
      Triple-finally m f (Triple-weaken m _ _ _ k (λ s p. p) (λ a s p. h s p) (λ x s p. h s p))

module _ {S X A B : Type 0} {P : S → Type 0} where
  pub Keeps-bind :
      (m : Exec S X A) (f : A → Exec S X B)
      → Keeps P m
      → ((a : A) → Keeps P (f a))
      → Keeps P (m >>= f)
  Keeps-bind m f km kf = Triple-bind m f (λ _. P) km kf

-- What a call keeps, at a state where it holds.
pub Keeps-at :
    {S X A : Type 0} {P : S → Type 0} {m : Exec S X A} → Keeps P m → (s : S) → P s → P (m s).1
Keeps-at {S} {X} {A} {P} {m} k s p = go (m s) (k.at s p)
  where
    go : (r : Result X A × S) → Post (λ _. P) (λ _. P) r → P r.1
    go (ok a, t) q = q
    go (err x, t) q = q
