-- ===== src/Processor/Transactions.antt =====
-- Statements in a transaction (components/processor-worker/apps/edge_agent/process.py), one rule for
-- each: where it raises, the committed tables are those of before.
pub mod Completing
pub mod Preparing
pub mod Rerun
use edge_evidence_showcase.Prelude.{
  ℕ, ◌≡◌, refl, sym, ◌∙◌, ap, subst, Bool, true, false, Option, none, some, Option-cases, inl, inr,
  List, Text, arith,
}
use edge_evidence_showcase.Exec.{Result, ok, err, Exec, raise, catch, ◌>>=◌, ◌>>◌}
use edge_evidence_showcase.Exec.Triple.{Post, Triple, Triple-catch, Triple-weaken, Triple-bind}
use edge_evidence_showcase.Processor.Runtime.{SqliteError, Error, sqlite}
use edge_evidence_showcase.Processor.Ledger.{Ledger}
use edge_evidence_showcase.Processor.Machine.{
  Fault, fine, refused, crash, Machine, Call, next_fault, spent, current, with_sqlite, query, store,
  execute, begin, commit, rollback, roll_back, ensure, look_at,
}
use edge_evidence_showcase.Processor.Reads.{query-Reads, ensure-Reads}

-- No transaction is open.
abbrev pub Closed : Machine → Type 0
Closed m = m.working ≡ none

-- A transaction that began at the tables `start` is open, and `Q` holds of its view.
abbrev pub Inside : Ledger → (Ledger → Type 0) → Machine → Type 0
Inside start Q m = (t : Ledger) × (m.working ≡ some t) × Q t × (m.committed ≡ start)

-- The committed tables are still those of `start`.
abbrev pub Unchanged : Ledger → Machine → Type 0
Unchanged start m = m.committed ≡ start

module _ (start : Ledger) (Q : Ledger → Type 0) where
  begun :
      (x : Fault) (m : Machine)
      → m.working ≡ none
      → m.committed ≡ start
      → Q start
      → (o : Option Ledger) → m.working ≡ o
      → Post {X = Error} {A = Unit}
          (λ _. Inside start Q)
          (λ _. Unchanged start)
          (elim o [
            | none ↦ (ok tt, record m { working = some m.committed })
            | some _ ↦ (err (sqlite SqliteError.operational), m)
          ])
  begun x m w c q none e = (m.committed, refl, subst Q (sym c) q, c)
  begun x m w c q (some t) e = c

  begun_by :
      (x : Fault) (m : Machine)
      → m.working ≡ none
      → m.committed ≡ start
      → Q start
      → Post {A = Unit}
          (λ _. Inside start Q)
          (λ _. Unchanged start)
          (with_sqlite
            (λ m. elim m.working [
              | none ↦ (ok tt, record m { working = some m.committed })
              | some _ ↦ (err (sqlite SqliteError.operational), m)
            ])
            x
            m)
  unfolding with_sqlite
  begun_by fine m w c q = begun fine m w c q m.working refl
  begun_by (refused e) m w c q = c
  begun_by (crash n) m w c q = c

  pub begin-Inside :
      Triple
        (λ m. Closed m × Unchanged start m × Q start)
        begin
        (λ _. Inside start Q)
        (λ _. Unchanged start)
  unfolding begin
  begin-Inside = record { at = λ m p. begun_by (next_fault m.faults) (spent m) p.0 p.1 p.2 }

  pub query-Inside :
      {A : Type 0} (f : Ledger → A)
      → Triple
          (Inside start Q)
          (query f)
          (λ a. Inside start (λ t. Q t × (a ≡ f t)))
          (λ _. Unchanged start)
  unfolding current
  query-Inside f =
      Triple-weaken _ _ _ _ (query-Reads (Inside start Q) (λ m p. p) f) (λ m p. p)
        (λ a m ((t, w, q, c), e). (t, w, (q, e ∙ ap (λ o. f (current o m.committed)) w), c))
        (λ x m (t, w, q, c). c)

  pub ensure-Inside :
      (b : Bool) (x : Error)
      → Triple
          (Inside start Q)
          (ensure b x)
          (λ _. Inside start (λ t. Q t × (b ≡ true)))
          (λ _. Unchanged start)
  ensure-Inside b x =
      Triple-weaken _ _ _ _ (ensure-Reads (Inside start Q) (λ m p. p) b x) (λ m p. p)
        (λ a m ((t, w, q, c), e). (t, w, (q, e), c)) (λ x m (t, w, q, c). c)

  pub raise-Inside :
      {A : Type 0} {R : A → Machine → Type 0} (x : Error)
      → Triple (Inside start Q) (raise x) R (λ _. Unchanged start)
  raise-Inside x = record { at = λ m (t, w, q, c). c }

  wrote :
      (f : Ledger → Option Ledger) (m : Machine) (t : Ledger)
      → m.working ≡ some t
      → Q t
      → m.committed ≡ start
      → (o : Option Ledger) → f (current m.working m.committed) ≡ o
      → Post {X = Error} {A = Unit}
          (λ _. Inside start (λ u. (t : Ledger) × Q t × (f t ≡ some u)))
          (λ _. Unchanged start)
          (elim o [ none ↦ (err (sqlite SqliteError.integrity), m) | some u ↦ (ok tt, store u m) ])
  unfolding current store
  wrote f m t w q c none e = c
  wrote f m t w q c (some u) e =
      rw (w, store) (u, refl, (t, q, sym (ap (λ o. f (current o m.committed)) w) ∙ e), c)

  written :
      (f : Ledger → Option Ledger) (x : Fault) (m : Machine)
      → Inside start Q m
      → Post {A = Unit}
          (λ _. Inside start (λ u. (t : Ledger) × Q t × (f t ≡ some u)))
          (λ _. Unchanged start)
          (with_sqlite
            (λ m. elim (f (current m.working m.committed)) [
              | none ↦ (err (sqlite SqliteError.integrity), m)
              | some t ↦ (ok tt, store t m)
            ])
            x
            m)
  unfolding with_sqlite
  written f fine m (t, w, q, c) = wrote f m t w q c (f (current m.working m.committed)) refl
  written f (refused e) m (t, w, q, c) = c
  written f (crash n) m (t, w, q, c) = c

  pub execute-Inside :
      (f : Ledger → Option Ledger)
      → Triple
          (Inside start Q)
          (execute f)
          (λ _. Inside start (λ u. (t : Ledger) × Q t × (f t ≡ some u)))
          (λ _. Unchanged start)
  unfolding execute
  execute-Inside f = record { at = λ m p. written f (next_fault m.faults) (spent m) p }

  committed_by :
      (x : Fault) (m : Machine)
      → Inside start Q m
      → Post {A = Unit}
          (λ _ m. Closed m × Q m.committed)
          (λ _. Unchanged start)
          (with_sqlite
            (λ m. (ok tt, record m { committed = current m.working m.committed; working = none }))
            x
            m)
  unfolding with_sqlite current
  committed_by fine m (t, w, q, c) = (refl, rw w q)
  committed_by (refused e) m (t, w, q, c) = c
  committed_by (crash n) m (t, w, q, c) = c

  pub commit-Inside :
      Triple (Inside start Q) commit (λ _ m. Closed m × Q m.committed) (λ _. Unchanged start)
  unfolding commit
  commit-Inside = record { at = λ m p. committed_by (next_fault m.faults) (spent m) p }

  pub roll_back-Inside :
      Triple (Inside start Q) roll_back (λ _ m. Closed m × Unchanged start m) (λ _. Unchanged start)
  unfolding roll_back
  roll_back-Inside = record { at = λ m (t, w, q, c). (refl, c) }
