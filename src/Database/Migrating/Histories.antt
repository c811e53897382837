-- ===== src/Database/Migrating/Histories.antt =====
-- Lists of migrations: what the checks of `migrate` find in them.
use edge_evidence_showcase.Prelude.{
  ℕ, ◌<◌, ◌≡◌, ◌≢◌, refl, sym, ◌∙◌, ap, Bool, true, false, ◌&&◌, Bool-cases, Option, none, some,
  List, [], ◌∷◌, ◌++◌, Text, text_eq, text_eq→eq, In, Each, inl, inr, ◌⊎◌, arith, all, ltb, ◌==◌,
  ==→eq, if◌then◌else◌,
}
use edge_evidence_showcase.Exec.{Result, ok, err}
use edge_evidence_showcase.Database.Statements.{migrations}
use edge_evidence_showcase.Database.Migrating.{
  MigrationExn, newer, drifted, name_of, check_recorded, has_version,
}
use edge_evidence_showcase.Database.Migrating.Rising.{Rising, Distinct, Each-In}

name_of-In :
    (version : ℕ) (name : Text) (ms : List (ℕ × Text))
    → name_of version ms ≡ some name
    → In (version, name) ms
unfolding name_of
name_of-In version name [] h = cc
name_of-In version name ((v, s) ∷ ms) h = elim (Bool-cases (v == version)) [
  | inl e ↦ inl (ground (arith, ==→eq v version))
  | inr e ↦ inr (name_of-In version name ms (ground arith))
]

check_step :
    (o : Option Text) (name : Text) (rest : Result MigrationExn Unit) (version : ℕ)
    → (elim o as (λ _. Result MigrationExn Unit) [
      | none ↦ err (newer version)
      | some n ↦ if text_eq n name then rest else err (drifted version)
    ])
      ≡ ok tt
    → (o ≡ some name) × (rest ≡ ok tt)
check_step none name rest version h = cc
check_step (some n) name rest version h = elim (Bool-cases (text_eq n name)) [
  | inl e ↦ (ap some (text_eq→eq n name e), rw e at h)
  | inr e ↦ let k = rw e at h in cc
]

-- Each recorded row is a migration of the code.
pub check_recorded-In :
    (rs : List (ℕ × Text)) → check_recorded rs ≡ ok tt → (r : ℕ × Text) → In r rs → In r migrations
unfolding check_recorded
check_recorded-In [] h r i = absurd i
check_recorded-In (q ∷ rs) h r i =
    let (known, more) = check_step (name_of q.0 migrations) q.1 (check_recorded rs) q.0 h in
    elim i as (λ _. In r migrations) [
      | inl e ↦ rw e (name_of-In q.0 q.1 migrations known)
      | inr j ↦ check_recorded-In rs more r j
    ]

pub has_version-In :
    (version : ℕ) (ms : List (ℕ × Text))
    → has_version version ms ≡ true
    → (m : ℕ × Text) × In m ms × (m.0 ≡ version)
unfolding has_version
has_version-In version [] h = cc
has_version-In version (m ∷ ms) h = elim (Bool-cases (m.0 == version)) [
  | inl e ↦ (m, inl refl, ==→eq m.0 version e)
  | inr e ↦ let (n, i, q) = has_version-In version ms (ground arith) in (n, inr i, q)
]

pub has_version-fresh :
    (version : ℕ) (ms : List (ℕ × Text))
    → has_version version ms ≡ false
    → Each (λ n. n.0 ≢ version) ms
unfolding has_version
has_version-fresh version [] h = tt
has_version-fresh version (m ∷ ms) h =
    (λ e. ground arith, has_version-fresh version ms (ground arith))

Each-last :
    (P : ℕ × Text → Type 0) (ms : List (ℕ × Text)) (m : ℕ × Text)
    → Each P ms
    → P m
    → Each P (ms ++ m ∷ [])
Each-last P [] m h p = (p, tt)
Each-last P (n ∷ ms) m h p = (h.0, Each-last P ms m h.1 p)

pub Distinct-last :
    (ms : List (ℕ × Text)) (m : ℕ × Text)
    → Each (λ n. n.0 ≢ m.0) ms
    → Distinct ms
    → Distinct (ms ++ m ∷ [])
Distinct-last [] m h d = (tt, tt)
Distinct-last (n ∷ ms) m h d = (Each-last _ ms m d.0 (λ e. h.0 (sym e)), Distinct-last ms m h.1 d.1)

pub In-left : (x : ℕ × Text) (ms ns : List (ℕ × Text)) → In x ms → In x (ms ++ ns)
In-left x [] ns i = absurd i
In-left x (m ∷ ms) ns (inl e) = inl e
In-left x (m ∷ ms) ns (inr i) = inr (In-left x ms ns i)

pub In-last : (m : ℕ × Text) (ms : List (ℕ × Text)) → In m (ms ++ m ∷ [])
In-last m [] = inl refl
In-last m (n ∷ ms) = inr (In-last m ms)

pub split_last :
    (x : ℕ × Text) (ms : List (ℕ × Text)) (m : ℕ × Text) (ns : List (ℕ × Text))
    → In x (ms ++ m ∷ [])
    → In x ms ⊎ In x (m ∷ ns)
split_last x [] m ns (inl e) = inr (inl e)
split_last x [] m ns (inr i) = absurd i
split_last x (n ∷ ms) m ns (inl e) = inl (inl e)
split_last x (n ∷ ms) m ns (inr i) =
    elim (split_last x ms m ns i) as (λ _. In x (n ∷ ms) ⊎ In x (m ∷ ns)) [
      | inl j ↦ inl (inr j)
      | inr j ↦ inr j
    ]

pub same_version :
    (r m : ℕ × Text) (ms : List (ℕ × Text)) → Rising ms → In r ms → In m ms → r.0 ≡ m.0 → r ≡ m
same_version r m [] h i j e = absurd i
same_version r m (n ∷ ms) h (inl p) (inl q) e = p ∙ sym q
same_version r m (n ∷ ms) h (inl p) (inr j) e =
    let u = Each-In (λ k. n.0 < k.0) m ms h.0 j in
    let v : r.0 ≡ n.0 = ap (λ k. k.0) p in absurd (omega arith)
same_version r m (n ∷ ms) h (inr i) (inl q) e =
    let u = Each-In (λ k. n.0 < k.0) r ms h.0 i in
    let v : m.0 ≡ n.0 = ap (λ k. k.0) q in absurd (omega arith)
same_version r m (n ∷ ms) h (inr i) (inr j) e = same_version r m ms h.1 i j e

below_all : (m : ℕ) (ms : List (ℕ × Text)) → all (λ n. ltb m n.0) ms ≡ true → Each (λ n. m < n.0) ms
below_all m [] h = tt
below_all m (n ∷ ms) h = (ground arith, below_all m ms (ground arith))

rising : List (ℕ × Text) → Bool
rising [] = true
rising (m ∷ ms) = all (λ n. ltb m.0 n.0) ms && rising ms

rising-Rising : (ms : List (ℕ × Text)) → rising ms ≡ true → Rising ms
unfolding rising
rising-Rising [] h = tt
rising-Rising (m ∷ ms) h = (below_all m.0 ms (ground arith), rising-Rising ms (ground arith))

pub migrations-Rising : Rising migrations
unfolding rising
migrations-Rising = rising-Rising migrations refl
