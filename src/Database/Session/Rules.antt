-- ===== src/Database/Session/Rules.antt =====
-- How statements and transactions change the tables, one rule for each.
use edge_evidence_showcase.Prelude.{
  ℕ, String, ◌≡◌, refl, true, false, Option, none, some, Option-cases, Bool-cases, inl, inr, arith,
}
use edge_evidence_showcase.Exec.{ok, err, Exec}
use edge_evidence_showcase.Exec.Triple.{
  Post, Triple, Triple-pure, Triple-bind, Triple-catch, Triple-weaken,
}
use edge_evidence_showcase.Contracts.{Exn, replication, sqlite_error, foreign, failure}
use edge_evidence_showcase.Database.{Tables}
use edge_evidence_showcase.Database.Session.{
  World, next_fault, current, spent, query, execute, begin, commit, abort, transaction,
}

-- What the handlers of a transaction catch.
abbrev pub Caught : Exn → Type 0
Caught (replication e) = Unit
Caught sqlite_error = Unit
Caught (foreign n) = ⊥

pub failure-Caught : (finding : String) (code : ℕ) → Caught (failure finding code)
unfolding failure
failure-Caught finding code = tt

module _ {T : Type 0} where
  -- No transaction is open, the target is `target`, and `Q` holds of the committed tables.
  abbrev pub Outside : T → (Tables → Type 0) → World T → Type 0
  Outside target Q w = (w.working ≡ none) × Q w.committed × (w.target ≡ target)

  -- A transaction that began at the tables `start` is open, and `Q` holds of its view.
  abbrev pub Inside : T → Tables → (Tables → Type 0) → World T → Type 0
  Inside target start Q w =
      (t : Tables) × (w.working ≡ some t) × Q t × (w.committed ≡ start) × (w.target ≡ target)

  abbrev pub Aborting : T → Tables → Exn → World T → Type 0
  Aborting target start x w = Caught x × (w.committed ≡ start) × (w.target ≡ target)

-- The results of a statement, by whether it fails and by what it reads.
module _ {T A : Type 0} (w : World T) where
  query_fault :
      (f : Tables → A) → next_fault w.faults ≡ true → query f w ≡ (err sqlite_error, spent w)
  unfolding query
  query_fault f e = ground arith

  query_fine :
      (f : Tables → A)
      → next_fault w.faults ≡ false
      → query f w ≡ (ok (f (current w.working w.committed)), spent w)
  unfolding query
  query_fine f e = ground arith

  execute_fault :
      (f : Tables → Option (Tables × A))
      → next_fault w.faults ≡ true
      → execute f w ≡ (err sqlite_error, spent w)
  unfolding execute
  execute_fault f e = ground arith

  execute_refused :
      (f : Tables → Option (Tables × A))
      → next_fault w.faults ≡ false
      → f (current w.working w.committed) ≡ none
      → execute f w ≡ (err sqlite_error, spent w)
  unfolding execute
  execute_refused f e h = ground arith

  execute_fine :
      (f : Tables → Option (Tables × A)) (t u : Tables) (a : A)
      → next_fault w.faults ≡ false
      → w.working ≡ some t
      → f t ≡ some (u, a)
      → execute f w ≡ (ok a, record (spent w) { working = some u })
  unfolding execute
  execute_fine f t u a e p h = ground arith

module _ {T A : Type 0} (target : T) (Q : Tables → Type 0) where
  pub query-Outside :
      (f : Tables → A)
      → Triple
          (Outside target Q)
          (query f)
          (λ a. Outside target (λ t. Q t × (a ≡ f t)))
          (λ x w. Outside target Q w × (x ≡ sqlite_error))
  query-Outside f = record { at = go }
    where
      go :
          (w : World T)
          → Outside target Q w
          → Post
              (λ a. Outside target (λ t. Q t × (a ≡ f t)))
              (λ x w. Outside target Q w × (x ≡ sqlite_error))
              (query f w)
      go w p = elim (Bool-cases (next_fault w.faults)) [
        | inl e ↦ rw (query_fault w f e) (p, refl)
        | inr e ↦ rw (query_fine w f e) (p.0, (p.1, unfold current in rw p.0), p.2)
      ]

  pub query-Inside :
      (start : Tables) (f : Tables → A)
      → Triple
          (Inside target start Q)
          (query f)
          (λ a. Inside target start (λ t. Q t × (a ≡ f t)))
          (Aborting target start)
  query-Inside start f = record { at = go }
    where
      go :
          (w : World T)
          → Inside target start Q w
          → Post
              (λ a. Inside target start (λ t. Q t × (a ≡ f t)))
              (Aborting target start)
              (query f w)
      go w (t, p, q, c, g) = elim (Bool-cases (next_fault w.faults)) [
        | inl e ↦ rw (query_fault w f e) (tt, c, g)
        | inr e ↦ rw (query_fine w f e) (t, p, (q, unfold current in rw p), c, g)
      ]

  pub execute-Inside :
      (start : Tables) (f : Tables → Option (Tables × A))
      → Triple
          (Inside target start Q)
          (execute f)
          (λ a. Inside target start (λ u. (t : Tables) × Q t × (f t ≡ some (u, a))))
          (Aborting target start)
  execute-Inside start f = record { at = go }
    where
      go :
          (w : World T)
          → Inside target start Q w
          → Post
              (λ a. Inside target start (λ u. (t : Tables) × Q t × (f t ≡ some (u, a))))
              (Aborting target start)
              (execute f w)
      go w (t, p, q, c, g) = elim (Bool-cases (next_fault w.faults)) [
        | inl e ↦ rw (execute_fault w f e) (tt, c, g)
        | inr e ↦ elim (Option-cases (f t)) [
          | inl h ↦ rw (execute_refused w f e (unfold current in rw p h)) (tt, c, g)
          | inr ((u, a), h) ↦ rw (execute_fine w f t u a e p h) (u, refl, (t, q, h), c, g)
        ]
      ]

module _ {T : Type 0} (w : World T) where
  begin_fault : next_fault w.faults ≡ true → begin w ≡ (err sqlite_error, spent w)
  unfolding begin
  begin_fault e = ground arith

  begin_fine :
      next_fault w.faults ≡ false
      → w.working ≡ none
      → begin w ≡ (ok tt, record (spent w) { working = some w.committed })
  unfolding begin
  begin_fine e h = ground arith

  commit_fault : next_fault w.faults ≡ true → commit w ≡ (err sqlite_error, spent w)
  unfolding commit
  commit_fault e = ground arith

  commit_fine :
      (t : Tables)
      → next_fault w.faults ≡ false
      → w.working ≡ some t
      → commit w ≡ (ok tt, record (spent w) { committed = t; working = none })
  unfolding commit
  commit_fine t e h = ground arith

module _ {T : Type 0} (target : T) (start : Tables) where
  pub begin_rule :
      Triple
        (Outside target (λ d. d ≡ start))
        begin
        (λ _. Inside target start (λ t. t ≡ start))
        (λ x w. Aborting target start x w × (w.working ≡ none))
  begin_rule = record { at = go }
    where
      go :
          (w : World T)
          → Outside target (λ d. d ≡ start) w
          → Post
              (λ _. Inside target start (λ t. t ≡ start))
              (λ x w. Aborting target start x w × (w.working ≡ none))
              (begin w)
      go w (p, q, g) = elim (Bool-cases (next_fault w.faults)) [
        | inl e ↦ rw (begin_fault w e) ((tt, q, g), p)
        | inr e ↦ rw (begin_fine w e p) (w.committed, refl, q, q, g)
      ]

  pub commit_rule :
      (Q : Tables → Type 0)
      → Triple (Inside target start Q) commit (λ _. Outside target Q) (Aborting target start)
  commit_rule Q = record { at = go }
    where
      go :
          (w : World T)
          → Inside target start Q w
          → Post (λ _. Outside target Q) (Aborting target start) (commit w)
      go w (t, p, q, c, g) = elim (Bool-cases (next_fault w.faults)) [
        | inl e ↦ rw (commit_fault w e) (tt, c, g)
        | inr e ↦ rw (commit_fine w t e p) (refl, q, g)
      ]

  abort_rule :
      {A : Type 0} (Q : A → World T → Type 0) (x : Exn)
      → Triple (Aborting target start x) (abort x) Q (λ _. Outside target (λ d. d ≡ start))
  abort_rule Q (replication e) = record { at = λ w h. unfold abort in (refl, h.1, h.2) }
  abort_rule Q sqlite_error = record { at = λ w h. unfold abort in (refl, h.1, h.2) }
  abort_rule Q (foreign n) = record { at = λ w h. absurd h.0 }

  -- A transaction takes effect as a whole or not at all.
  pub transaction_rule :
      {A : Type 0} (body : Exec (World T) Exn A) (Q : A → Tables → Type 0)
      → Triple
          (Inside target start (λ t. t ≡ start))
          body
          (λ a. Inside target start (Q a))
          (Aborting target start)
      → Triple
          (Outside target (λ d. d ≡ start))
          (transaction body)
          (λ a. Outside target (Q a))
          (λ _. Outside target (λ d. d ≡ start))
  unfolding transaction
  transaction_rule body Q h =
      Triple-catch _ abort (Aborting target start)
        (Triple-bind begin _ (λ _. Inside target start (λ t. t ≡ start))
          (Triple-weaken begin _ _ _ begin_rule (λ s p. p) (λ a s p. p) (λ x s p. p.0))
          (λ _.
            Triple-bind body _ (λ a. Inside target start (Q a)) h
              (λ a.
                Triple-bind commit _ (λ _. Outside target (Q a)) (commit_rule (Q a))
                  (λ _. Triple-pure a (λ s p. p)))))
        (abort_rule _)
