-- ===== src/Exec.antt =====
-- Python calls that change a state and may raise. The state comes back beside an exception too:
-- what was written before a `raise` stays written.
pub mod Triple
use edge_evidence_showcase.Prelude.{List, [], ◌∷◌, ◌++◌}

pub data Result (X A : Type 0) : Type 0 where
  ok : A → Result X A
  err : X → Result X A

abbrev pub Exec : Type 0 → Type 0 → Type 0 → Type 0
Exec S X A = S → Result X A × S

module _ {S X A : Type 0} where
  abbrev pub pure : A → Exec S X A
  pure a s = (ok a, s)

  abbrev pub raise : X → Exec S X A
  raise x s = (err x, s)

  abbrev pub lift : Result X A → Exec S X A
  lift r s = (r, s)

  abbrev pub gets : (S → A) → Exec S X A
  gets f s = (ok (f s), s)

  -- `try: m  except: h`, where `h` raises again what it does not handle.
  abbrev pub handle : (X → Exec S X A) → Result X A × S → Result X A × S
  handle h (ok a, s) = (ok a, s)
  handle h (err x, s) = h x s

  abbrev pub catch : Exec S X A → (X → Exec S X A) → Exec S X A
  catch m h s = handle h (m s)

  abbrev pub close_after : (S → S) → Result X A × S → Result X A × S
  close_after f (r, s) = (r, f s)

  -- `try: m  finally: …`, where the last block is a change of the state that raises nothing.
  abbrev pub finally : Exec S X A → (S → S) → Exec S X A
  finally m f s = close_after f (m s)

abbrev pub modify : {S X : Type 0} → (S → S) → Exec S X Unit
modify f s = (ok tt, f s)

module _ {S X A B : Type 0} where
  abbrev pub continue : (A → Exec S X B) → Result X A × S → Result X B × S
  continue f (ok a, s) = f a s
  continue f (err x, s) = (err x, s)

  infixl 10 ◌>>=◌ ◌>>◌
  abbrev pub ◌>>=◌ : Exec S X A → (A → Exec S X B) → Exec S X B
  ◌>>=◌ m f s = continue f (m s)

  abbrev pub ◌>>◌ : Exec S X A → Exec S X B → Exec S X B
  m >> n = m >>= λ _. n

-- Pure calls in a row.
abbrev pub and_then : {X A B : Type 0} → Result X A → (A → Result X B) → Result X B
and_then (ok a) f = f a
and_then (err x) f = err x

-- A loop that appends what each element gives, and ends at the first exception.
unfoldable pub collect : {X A B : Type 0} → (A → Result X (List B)) → List A → Result X (List B)
collect f [] = ok []
collect f (a ∷ more) =
    let rest = collect f more in and_then (f a) (λ xs. and_then rest (λ ys. ok (xs ++ ys)))
