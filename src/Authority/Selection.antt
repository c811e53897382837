-- ===== src/Authority/Selection.antt =====
-- What `_objects_for_state` (core/authority.py) selects.
use edge_evidence_showcase.Prelude.{
  none, ◌≡◌, refl, sym, ◌∙◌, ap, ap₂, ◌↔◌, Bool, true, false, Bool-cases, List, [], ◌∷◌, ◌++◌, Text,
  text_eq→eq, text_eq_refl, In, inl, inr, ◌⊎◌, arith, keep, Each, map,
}
use edge_evidence_showcase.Prelude.Sorting.{sorted, sorted-In}
use edge_evidence_showcase.Exec.{Result, ok, err, and_then, collect}
use edge_evidence_showcase.Exec.Triple.{Post, Triple-weaken}
use edge_evidence_showcase.Contracts.{Exn}
use edge_evidence_showcase.Contracts.Objects.{ReplicaObject, check_object, replica_object}
use edge_evidence_showcase.Database.{ReplicaState, pending, verified, ReplicaRow, Tables}
use edge_evidence_showcase.Database.Statements.{in_state, state_eq, row_compare}
use edge_evidence_showcase.Database.Session.{World}
use edge_evidence_showcase.Authority.{objects_of, objects_for_state}
use edge_evidence_showcase.Authority.Changes.{Selected, objects_for_state-Reads}

pub check_object-same : (o p : ReplicaObject) → check_object o ≡ ok p → o ≡ p
unfolding check_object
check_object-same o p h = ground arith

state_eq→eq : (s t : ReplicaState) → state_eq s t ≡ true → s ≡ t
unfolding state_eq
state_eq→eq pending pending h = refl
state_eq→eq pending verified h = cc
state_eq→eq verified pending h = cc
state_eq→eq verified verified h = refl

state_eq_refl : (s : ReplicaState) → state_eq s s ≡ true
unfolding state_eq
state_eq_refl pending = refl
state_eq_refl verified = refl

-- The row is one of this target in this state.
abbrev pub IsIn : Text → ReplicaState → ReplicaRow → Type 0
IsIn target_id state r = (r.target_id ≡ target_id) × (r.state ≡ state)

in_state-IsIn :
    (target_id : Text) (state : ReplicaState) (r : ReplicaRow)
    → (in_state target_id state r ≡ true) ↔ IsIn target_id state r
unfolding in_state
in_state-IsIn target_id state r = (
  λ h.
      (ground (arith, text_eq→eq r.target_id target_id), ground (arith, state_eq→eq r.state state)),
  λ (e, q). ground (arith, text_eq_refl target_id, state_eq_refl state),
)

module _ {A : Type 0} (p : A → Bool) (a : A) where
  clash : {x : A} → p x ≡ false → a ≡ x → p a ≡ true → ⊥
  clash f e q = ground arith

  keep_step :
      (x : A) (xs : List A)
      → (In a (keep p xs) ↔ (In a xs × (p a ≡ true)))
      → In a (keep p (x ∷ xs)) ↔ (In a (x ∷ xs) × (p a ≡ true))
  keep_step x xs ih = elim (Bool-cases (p x)) [
    | inl t ↦ (λ h. kept t h, λ (i, q). rw t (elim i [ inl e ↦ inl e | inr j ↦ inr (ih.1 (j, q)) ]))
    | inr f ↦ (
      λ h. let k : In a (keep p xs) = rw f at h in (inr (ih.0 k).0, (ih.0 k).1),
      λ (i, q). rw f (elim i [ inl e ↦ absurd (clash f e q) | inr j ↦ ih.1 (j, q) ]),
    )
  ]
    where
      kept : p x ≡ true → In a (keep p (x ∷ xs)) → In a (x ∷ xs) × (p a ≡ true)
      kept t h =
          let k : (a ≡ x) ⊎ In a (keep p xs) = rw t at h in
          elim k [ inl e ↦ (inl e, rw e t) | inr j ↦ (inr (ih.0 j).0, (ih.0 j).1) ]

  pub keep-In : (xs : List A) → In a (keep p xs) ↔ (In a xs × (p a ≡ true))
  keep-In [] = (λ h. absurd h, λ h. absurd h.0)
  keep-In (x ∷ xs) = keep_step x xs (keep-In xs)

collect_step :
    (o : Result Exn ReplicaObject) (rest : Result Exn (List ReplicaObject))
    (objects : List ReplicaObject)
    → and_then (and_then o (λ p. ok (p ∷ []))) (λ xs. and_then rest (λ ys. ok (xs ++ ys)))
      ≡ ok objects
    → (p : ReplicaObject) × (ys : List ReplicaObject) × (o ≡ ok p)
      × (rest ≡ ok ys)
      × (objects ≡ p ∷ ys)
collect_step (ok p) (ok ys) objects h = (p, ys, refl, refl, ground arith)
collect_step (ok p) (err x) objects h = cc
collect_step (err x) rest objects h = cc

-- The list that `objects_of` returns for rows of the target: their objects, in order.
objects_of-map :
    (target_id : Text) (rows : List ReplicaRow) (objects : List ReplicaObject)
    → Each (λ r. r.target_id ≡ target_id) rows
    → objects_of target_id rows ≡ ok objects
    → objects ≡ map (λ r. r.object) rows
unfolding objects_of collect replica_object
objects_of-map target_id [] objects e h = ground arith
objects_of-map target_id (r ∷ rows) objects e h =
    let (p, ys, a, b, c) = collect_step _ (objects_of target_id rows) objects h in
    let same = check_object-same _ p a in
    let rest = objects_of-map target_id rows ys e.1 b in
    c ∙ ap₂ (λ q qs. q ∷ qs) (sym same ∙ ap (λ t. record r.object { target_id = t }) (sym e.0)) rest

-- The rows of the target that the state selects, in the order of the query.
abbrev pub selection : Text → ReplicaState → Tables → List ReplicaRow
selection target_id state db =
    sorted row_compare (keep (in_state target_id state) db.replica_objects)

selection-In :
    (target_id : Text) (state : ReplicaState) (db : Tables) (r : ReplicaRow)
    → In r (selection target_id state db) ↔ (In r db.replica_objects × IsIn target_id state r)
selection-In target_id state db r =
    let (f, g) = sorted-In row_compare r (keep (in_state target_id state) db.replica_objects) in
    let (h, k) = keep-In (in_state target_id state) r db.replica_objects in
    let (a, b) = in_state-IsIn target_id state r in
    (λ i. let (j, t) = h (f i) in (j, a t), λ (i, q). g (k (i, b q)))

In-Each : {A : Type 0} (P : A → Type 0) (xs : List A) → ((a : A) → In a xs → P a) → Each P xs
In-Each P [] f = tt
In-Each P (x ∷ xs) f = (f x (inl refl), In-Each P xs (λ a i. f a (inr i)))

-- What a returned list holds: the objects of the selected rows, in the order of the query.
pub Selected-map :
    (target_id : Text) (state : ReplicaState) (db : Tables) (objects : List ReplicaObject)
    → Selected target_id state db objects
    → objects ≡ map (λ r. r.object) (selection target_id state db)
Selected-map target_id state db objects h =
    objects_of-map target_id (selection target_id state db) objects
      (In-Each _ _ (λ r i. ((selection-In target_id state db r).0 i).1.0)) h

In-map :
    (r : ReplicaRow) (rows : List ReplicaRow) → In r rows → In r.object (map (λ s. s.object) rows)
In-map r [] i = absurd i
In-map r (s ∷ rows) (inl e) = inl (ap (λ q. q.object) e)
In-map r (s ∷ rows) (inr i) = inr (In-map r rows i)

-- No row that the state selects is missing from a returned list.
pub Selected-rows :
    (target_id : Text) (state : ReplicaState) (db : Tables) (objects : List ReplicaObject)
    → Selected target_id state db objects
    → Each (λ r. IsIn target_id state r → In r.object objects) db.replica_objects
Selected-rows target_id state db objects h = In-Each _ _ (λ r i q.
    rw (Selected-map target_id state db objects h)
      (In-map r (selection target_id state db) ((selection-In target_id state db r).1 (i, q))))

-- The rows are those of this target in this state, and the objects are theirs.
abbrev pub Finds : Text → ReplicaState → Tables → List ReplicaObject → Type 0
Finds target_id state db objects =
    (rows : List ReplicaRow) × (objects ≡ map (λ r. r.object) rows)
    × ((r : ReplicaRow) → In r rows ↔ (In r db.replica_objects × IsIn target_id state r))

-- From a world with no open transaction, objects_for_state changes neither the tables nor the
-- target; and if it returns, then it returns the objects of exactly the rows that are of this
-- target and in this state, as they are stored.
pub objects_for_state-Finds :
    {T : Type 0} (target_id : Text) (state : ReplicaState) (w : World T)
    → w.working ≡ none
    → Post
        (λ objects v.
          (v.working ≡ none)
          × (v.committed ≡ w.committed)
          × (v.target ≡ w.target)
          × Finds target_id state w.committed objects)
        (λ _ v. (v.working ≡ none) × (v.committed ≡ w.committed) × (v.target ≡ w.target))
        (objects_for_state target_id state w)
objects_for_state-Finds target_id state w n =
    (Triple-weaken _ _ _ _ (objects_for_state-Reads target_id state w.target w.committed) (λ s p. p)
        (λ objects v (n, (d, f), t). (
          n,
          d,
          t,
          (
            selection target_id state w.committed,
            Selected-map target_id state w.committed objects f,
            selection-In target_id state w.committed,
          ),
        ))
        (λ x v p. p)).at
      w (n, refl, refl)
