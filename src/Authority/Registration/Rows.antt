-- ===== src/Authority/Registration/Rows.antt =====
-- The rows that `register_discovered` of
-- components/replication-worker/packages/replication/core/authority.py finds and adds.
use edge_evidence_showcase.Prelude.{
  ℕ, ◌+◌, ◌≡◌, refl, sym, ◌∙◌, ap, Bool, true, false, ◌&&◌, Option, none, some, Bool-cases, List,
  [], ◌∷◌, ◌++◌, Text, length, length-append, In, Each, subst, text_eq_refl, inl, inr, arith, ◌==◌,
  text_eq, text_eq→eq,
}
use mathlib.Core.List.{append-nil, append_assoc}
use edge_evidence_showcase.Contracts.Objects.{ReplicaObject}
use edge_evidence_showcase.Database.{pending, ReplicaRow, Tables}
use edge_evidence_showcase.Database.Schema.Evolution.{SameSources, SameSources-trans}
use edge_evidence_showcase.Database.Statements.{stored_row, find_row, pending_row, with_unit}

-- The object as registered for the target.
abbrev pub for_target : Text → ReplicaObject → ReplicaObject
for_target target_id obj = record obj { target_id = target_id }

-- The table has a row of exactly this object, with its size and digest.
abbrev pub Covers : Text → Tables → ReplicaObject → Type 0
Covers target_id db obj =
    (r : ReplicaRow) × In r db.replica_objects × (r.object ≡ for_target target_id obj)

-- Two rows of different keys (target_id, object_kind, relative_uri).
abbrev pub Differs : ReplicaRow → ReplicaRow → Type 0
Differs r s = ¬ (
    (s.target_id ≡ r.target_id)
    × (s.object_kind ≡ r.object_kind)
    × (s.relative_uri ≡ r.relative_uri))

-- Each row of the second list has a key that no row before it has.
abbrev pub AllNew : List ReplicaRow → List ReplicaRow → Type 0
AllNew before [] = Unit
AllNew before (r ∷ rs) = Each (Differs r) before × AllNew (before ++ r ∷ []) rs

-- A PENDING row, without an attempt, of exactly one of the objects.
abbrev pub IsFresh : Text → List ReplicaObject → ReplicaRow → Type 0
IsFresh target_id objects r =
    (r.state ≡ pending)
    × (r.attempt_count ≡ 0)
    × ((obj : ReplicaObject) × In obj objects × (r.object ≡ for_target target_id obj))

-- `n` fresh rows of the objects stand behind the rows of `start`, under keys that were missing; the
-- targets and the records of finalized files are the same.
abbrev pub Grows : Text → List ReplicaObject → Tables → ℕ → Tables → Type 0
Grows target_id objects start n db =
    (fresh : List ReplicaRow) × (db.replica_objects ≡ start.replica_objects ++ fresh)
    × (length fresh ≡ n)
    × (Each (IsFresh target_id objects) fresh × AllNew start.replica_objects fresh)
    × (db.replica_targets ≡ start.replica_targets)
    × SameSources start db

In-append : {A : Type 0} (a : A) (xs ys : List A) → In a xs → In a (xs ++ ys)
In-append a [] ys h = absurd h
In-append a (x ∷ xs) ys (inl e) = inl e
In-append a (x ∷ xs) ys (inr h) = inr (In-append a xs ys h)

pub In-last : {A : Type 0} (a : A) (xs : List A) → In a (xs ++ a ∷ [])
In-last a [] = inl refl
In-last a (x ∷ xs) = inr (In-last a xs)

Each-last :
    {A : Type 0} (P : A → Type 0) (xs : List A) (a : A) → Each P xs → P a → Each P (xs ++ a ∷ [])
Each-last P [] a h p = (p, tt)
Each-last P (x ∷ xs) a h p = (h.0, Each-last P xs a h.1 p)

pub Each-Covers :
    (target_id : Text) (db db' : Tables) (r : ReplicaRow)
    → db'.replica_objects ≡ db.replica_objects ++ r ∷ []
    → (os : List ReplicaObject) → Each (Covers target_id db) os
    → Each (Covers target_id db') os
Each-Covers target_id db db' r e [] h = tt
Each-Covers target_id db db' r e (o ∷ os) ((s, i, q), h) = (
  (s, rw e (In-append s db.replica_objects (r ∷ []) i), q),
  Each-Covers target_id db db' r e os h,
)

pub with_unit-some :
    (o : Option Tables) (db : Tables) (u : Unit {0}) → with_unit o ≡ some (db, u) → o ≡ some db
with_unit-some none db u h = cc
with_unit-some (some d) db u h = ground arith

AllNew-last :
    (before rs : List ReplicaRow) (r : ReplicaRow)
    → AllNew before rs
    → Each (Differs r) (before ++ rs)
    → AllNew before (rs ++ r ∷ [])
AllNew-last before [] r h k = (subst (Each (Differs r)) (append-nil before) k, tt)
AllNew-last before (s ∷ rs) r (d, h) k = (
  d,
  AllNew-last (before ++ s ∷ []) rs r h
      (subst (Each (Differs r)) (sym (append_assoc before (s ∷ []) rs)) k),
)

pub Grows-insert :
    (target_id : Text) (objects : List ReplicaObject) (obj : ReplicaObject) (now : ℕ)
    (start db db' : Tables) (n : ℕ)
    → In obj objects
    → Each (Differs (pending_row target_id obj now)) db.replica_objects
    → Grows target_id objects start n db
    → db'.replica_objects ≡ db.replica_objects ++ pending_row target_id obj now ∷ []
    → db'.replica_targets ≡ db.replica_targets
    → SameSources db db'
    → Grows target_id objects start (n + 1) db'
Grows-insert target_id objects obj now start db db' n i d (fresh, e, l, (p, q), t, u) h k v =
    let r : ReplicaRow = pending_row target_id obj now in
    (
      fresh ++ r ∷ [],
      h ∙ ap (λ rs. rs ++ r ∷ []) e ∙ append_assoc start.replica_objects fresh (r ∷ []),
      omega (arith, length-append fresh (r ∷ [])),
      (
        Each-last _ fresh r p (unfold pending_row in (refl, refl, (obj, i, refl))),
        AllNew-last start.replica_objects fresh r q (subst (Each (Differs r)) e d),
      ),
      k ∙ t,
      SameSources-trans start db db' u v,
    )

find_row-first :
    (p : ReplicaRow → Bool) (s : ReplicaRow) (rs : List ReplicaRow) (r : ReplicaRow)
    → p s ≡ true
    → find_row p (s ∷ rs) ≡ some r
    → s ≡ r
unfolding find_row
find_row-first p s rs r t h = ground arith

find_row-rest :
    (p : ReplicaRow → Bool) (s : ReplicaRow) (rs : List ReplicaRow) (r : ReplicaRow)
    → p s ≡ false
    → find_row p (s ∷ rs) ≡ some r
    → find_row p rs ≡ some r
unfolding find_row
find_row-rest p s rs r f h = ground arith

find_row-In :
    (p : ReplicaRow → Bool) (rs : List ReplicaRow) (r : ReplicaRow)
    → find_row p rs ≡ some r
    → In r rs × (p r ≡ true)
find_row-In p [] r h = unfold find_row in cc
find_row-In p (s ∷ rs) r h = elim (Bool-cases (p s)) [
  | inl t ↦ let e = find_row-first p s rs r t h in (inl (sym e), rw e at t)
  | inr f ↦ let (i, t) = find_row-In p rs r (find_row-rest p s rs r f h) in (inr i, t)
]

same_object :
    (target_id : Text) (obj : ReplicaObject) (r : ReplicaRow)
    → (text_eq r.target_id target_id
        && text_eq r.object_kind obj.object_kind
        && text_eq r.relative_uri obj.relative_uri)
      ≡ true
    → (r.expected_byte_size == obj.expected_byte_size
        && text_eq r.expected_sha256 obj.expected_sha256)
      ≡ true
    → r.object ≡ for_target target_id obj
same_object target_id obj r h e = ground (
  arith,
  text_eq→eq r.target_id target_id,
  text_eq→eq r.object_kind obj.object_kind,
  text_eq→eq r.relative_uri obj.relative_uri,
  text_eq→eq r.expected_sha256 obj.expected_sha256,
)

-- A stored row of the same size and digest is a row of the object.
pub stored_row-Covers :
    (target_id : Text) (obj : ReplicaObject) (db : Tables) (r : ReplicaRow)
    → stored_row target_id obj db ≡ some r
    → (r.expected_byte_size == obj.expected_byte_size
        && text_eq r.expected_sha256 obj.expected_sha256)
      ≡ true
    → Covers target_id db obj
unfolding stored_row
stored_row-Covers target_id obj db r h e =
    let (i, t) = find_row-In _ db.replica_objects r h in (r, i, same_object target_id obj r t e)

find_row-none :
    (p : ReplicaRow → Bool) (Q : ReplicaRow → Type 0)
    → ((r : ReplicaRow) → p r ≡ false → Q r)
    → (rs : List ReplicaRow) → find_row p rs ≡ none
    → Each Q rs
find_row-none p Q f [] h = tt
find_row-none p Q f (r ∷ rs) h = elim (Bool-cases (p r)) [
  | inl t ↦ unfold find_row in cc
  | inr e ↦ (f r e, find_row-none p Q f rs (unfold find_row in ground arith))
]

-- Where no row of the object is stored, every row has another key.
pub stored_row-Differs :
    (target_id : Text) (obj : ReplicaObject) (now : ℕ) (db : Tables)
    → stored_row target_id obj db ≡ none
    → Each (Differs (pending_row target_id obj now)) db.replica_objects
unfolding stored_row pending_row
stored_row-Differs target_id obj now db =
    find_row-none _ _
      (λ r e (a, b, c). grind (
        arith,
        text_eq_refl target_id,
        text_eq_refl obj.object_kind,
        text_eq_refl obj.relative_uri,
      ))
      db.replica_objects
