-- ===== src/Authority/Registration.antt =====
-- `register_discovered` of core/authority.py: what it adds.
pub mod Rows
use edge_evidence_showcase.Prelude.{
  ℕ, ◌+◌, ◌≡◌, refl, sym, subst, ◌∙◌, ap, Bool, true, false, ◌&&◌, Option, none, some, Bool-cases,
  List, [], ◌∷◌, ◌++◌, Text, length, length-append, In, Each, inl, inr, arith, ◌==◌, text_eq,
  text_eq→eq,
}
use mathlib.Core.List.{append-nil, append_assoc}
use edge_evidence_showcase.Exec.{gets}
use edge_evidence_showcase.Exec.Triple.{
  Post, Triple, Triple-pure, Triple-raise, Triple-if, Triple-bind, Triple-weaken,
}
use edge_evidence_showcase.Contracts.Objects.{ReplicaObject}
use edge_evidence_showcase.Database.{pending, ReplicaRow, Tables}
use edge_evidence_showcase.Database.Schema.{insert_replica_row}
use edge_evidence_showcase.Database.Schema.Evolution.{
  insert_replica_row-appends, SameSources, SameSources-trans, insert_replica_row-SameSources,
}
use edge_evidence_showcase.Database.Statements.{stored_row, find_row, pending_row, with_unit}
use edge_evidence_showcase.Database.Session.{World, query, execute}
use edge_evidence_showcase.Database.Session.Rules.{
  Inside, Aborting, query-Inside, execute-Inside, transaction_rule, failure-Caught,
}
use edge_evidence_showcase.Authority.{register_one, register_loop, register_discovered}
use edge_evidence_showcase.Authority.Changes.{Changes, Reads-bind, require_current-Changes}
pub use edge_evidence_showcase.Authority.Registration.Rows.{
  for_target, Covers, Differs, AllNew, IsFresh, Grows, with_unit-some,
}
use edge_evidence_showcase.Authority.Registration.Rows.{
  In-last, Each-Covers, Grows-insert, stored_row-Covers, stored_row-Differs,
}

module _ {T : Type 0} (target_id : Text) (all : List ReplicaObject) (target : T)
    (start : Tables) where
  abbrev Progress : ℕ → List ReplicaObject → World T → Type 0
  Progress n done =
      Inside target start (λ db. Grows target_id all start n db × Each (Covers target_id db) done)

  -- No row of the object is stored.
  abbrev Missing : ReplicaObject → Tables → Type 0
  Missing obj db = stored_row target_id obj db ≡ none

  insert_step :
      (n : ℕ) (done : List ReplicaObject) (obj : ReplicaObject) (now : ℕ)
      → In obj all
      → Triple
          (Inside target start (λ db.
            (Grows target_id all start n db × Each (Covers target_id db) done) × Missing obj db))
          (execute (λ db. with_unit (insert_replica_row (pending_row target_id obj now) db)))
          (λ _. Progress (n + 1) (obj ∷ done))
          (Aborting target start)
  insert_step n done obj now i =
      Triple-weaken _ _ _ _
        (execute-Inside target
          (λ db.
            (Grows target_id all start n db × Each (Covers target_id db) done) × Missing obj db)
          start (λ db. with_unit (insert_replica_row (pending_row target_id obj now) db)))
        (λ s p. p)
        (λ u s (d, p, (db, ((g, k), m), h), c, t).
          let (rows, targets) =
            insert_replica_row-appends (pending_row target_id obj now) db d
              (with_unit-some _ d u h) in
          (
            d,
            p,
            (
              Grows-insert target_id all obj now start db d n i
                  (stored_row-Differs target_id obj now db m) g rows targets
                  (insert_replica_row-SameSources (pending_row target_id obj now) db d
                    (with_unit-some _ d u h)),
              (
                (
                  pending_row target_id obj now,
                  rw rows (In-last _ db.replica_objects),
                  unfold pending_row in refl,
                ),
                Each-Covers target_id db d (pending_row target_id obj now) rows done k,
              ),
            ),
            c,
            t,
          ))
        (λ x s p. p)

  register_one_rule :
      (n : ℕ) (done : List ReplicaObject) (obj : ReplicaObject) (row : Option ReplicaRow)
      → In obj all
      → Triple
          (Inside target start (λ db.
            (Grows target_id all start n db × Each (Covers target_id db) done)
            × (row ≡ stored_row target_id obj db)))
          (register_one target_id obj n row)
          (λ m. Progress m (obj ∷ done))
          (Aborting target start)
  register_one_rule n done obj none i =
      unfold register_one in
      Triple-bind (gets (λ w. w.clock)) _
        (λ _. Inside target start (λ db.
          (Grows target_id all start n db × Each (Covers target_id db) done) × Missing obj db))
        (record { at = λ s (d, p, (g, e), c, t). (d, p, (g, sym e), c, t) })
        (λ now.
          Triple-bind _ _ (λ _. Progress (n + 1) (obj ∷ done)) (insert_step n done obj now i)
            (λ _. Triple-pure (n + 1) (λ s p. p)))
  register_one_rule n done obj (some r) i =
      unfold register_one in
      Triple-if _ _ _
        (λ e. Triple-pure n (λ s (d, p, ((g, k), h), c, t).
          (d, p, (g, (stored_row-Covers target_id obj d r (sym h) e, k)), c, t)))
        (λ e. Triple-raise _ (λ s (d, p, g, c, t). (failure-Caught _ _, c, t)))

  -- Each object of the list is covered at the end, and so is what was covered before.
  register_loop_rule :
      (objects done : List ReplicaObject) (n : ℕ)
      → Each (λ obj. In obj all) objects
      → Triple
          (Progress n done)
          (register_loop target_id objects n)
          (λ m. Inside target start (λ db.
            Grows target_id all start m db
            × Each (Covers target_id db) done
            × Each (Covers target_id db) objects))
          (Aborting target start)
  unfolding register_loop
  register_loop_rule [] done n i =
      Triple-pure n (λ s (d, p, (g, k), c, t). (d, p, (g, k, tt), c, t))
  register_loop_rule (obj ∷ objects) done n (i, more) =
      Triple-bind (query (stored_row target_id obj)) _ _
        (query-Inside target
          (λ db. Grows target_id all start n db × Each (Covers target_id db) done) start
          (stored_row target_id obj))
        (λ row.
          Triple-bind (register_one target_id obj n row) _ (λ m. Progress m (obj ∷ done))
            (register_one_rule n done obj row i)
            (λ m.
              Triple-weaken (register_loop target_id objects m) _ _ _
                (register_loop_rule objects (obj ∷ done) m more) (λ s p. p)
                (λ k s (d, p, (g, (v, b), o), c, t). (d, p, (g, b, (v, o)), c, t)) (λ x s p. p)))

Grows-start :
    (target_id : Text) (objects : List ReplicaObject) (start : Tables)
    → Grows target_id objects start 0 start
Grows-start target_id objects start =
    ([], sym (append-nil start.replica_objects), refl, (tt, tt), refl, (refl, refl, refl))

In-middle : (x : ReplicaObject) (ys xs : List ReplicaObject) → In x (ys ++ x ∷ xs)
In-middle x [] xs = inl refl
In-middle x (y ∷ ys) xs = inr (In-middle x ys xs)

Each-In : (xs ys : List ReplicaObject) → Each (λ x. In x (ys ++ xs)) xs
Each-In [] ys = tt
Each-In (x ∷ xs) ys = (
  In-middle x ys xs,
  subst (λ zs. Each (λ z. In z zs) xs) (append_assoc ys (x ∷ []) xs) (Each-In xs (ys ++ x ∷ [])),
)

pub register_discovered-Changes :
    {T : Type 0} (target_id : Text) (objects : List ReplicaObject)
    → Changes {T = T}
        (register_discovered target_id objects)
        (λ start n d. Grows target_id objects start n d × Each (Covers target_id d) objects)
unfolding register_discovered
register_discovered-Changes target_id objects =
    Reads-bind _ _ _ _ require_current-Changes (λ _ target start _.
      transaction_rule target start (register_loop target_id objects 0)
        (λ n d. Grows target_id objects start n d × Each (Covers target_id d) objects)
        (Triple-weaken _ _ _ _
          (register_loop_rule target_id objects target start objects [] 0 (Each-In objects []))
          (λ s (d, p, q, c, t). (d, p, rw q (Grows-start target_id objects start, tt), c, t))
          (λ m s (d, p, (g, k, o), c, t). (d, p, (g, o), c, t)) (λ x s p. p)))

-- From a world with no open transaction, register_discovered either returns the number of the fresh
-- rows, which stand behind the rows that were there: each is PENDING, without an attempt, of exactly
-- one object of the list, and under a key (target, kind and URI) that no row before it has; and then
-- the table has a row of each object of the list with exactly its size and digest. Or it raises, and
-- then the tables are unchanged. In both cases no transaction is left open, and the target and the
-- records of finalized files are unchanged.
pub register_discovered-Covers :
    {T : Type 0} (target_id : Text) (objects : List ReplicaObject) (w : World T)
    → w.working ≡ none
    → Post
        (λ n v.
          (v.working ≡ none)
          × (Grows target_id objects w.committed n v.committed
              × Each (Covers target_id v.committed) objects)
          × (v.target ≡ w.target))
        (λ _ v. (v.working ≡ none) × (v.committed ≡ w.committed) × (v.target ≡ w.target))
        (register_discovered target_id objects w)
register_discovered-Covers target_id objects w n =
    (register_discovered-Changes target_id objects w.target w.committed).at w (n, refl, refl)
