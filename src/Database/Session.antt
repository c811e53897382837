-- ===== src/Database/Session.antt =====
-- One connection to the database: the statements of Python's sqlite3 module in explicit
-- transactions. Each call of `execute` or `commit` may fail for a reason of its own, as the next
-- entry of `faults` says, and then has no effect. `rollback` and `close` do not fail.
pub mod Rules
use edge_evidence_showcase.Prelude.{
  ℕ, ◌≡◌, refl, Bool, true, false, Option, none, some, List, [], ◌∷◌, text, if◌then◌else◌,
}
use edge_evidence_showcase.Exec.{Result, ok, err, Exec, catch, raise, ◌>>=◌, ◌>>◌, pure}
use edge_evidence_showcase.Contracts.{Exn, replication, sqlite_error, foreign, failure}
use edge_evidence_showcase.Database.{Tables}

-- What the worker acts on: the database, with the view of an open transaction, and the target.
pub record World (T : Type 0) : Type 0 where
  pub committed : Tables
  pub working : Option Tables
  pub faults : List Bool
  pub clock : ℕ
  pub target : T

unfoldable pub next_fault : List Bool → Bool
next_fault [] = false
next_fault (b ∷ bs) = b

unfoldable pub later_faults : List Bool → List Bool
later_faults [] = []
later_faults (b ∷ bs) = bs

-- What a statement reads: the open transaction, or the committed tables.
unfoldable pub current : Option Tables → Tables → Tables
current none db = db
current (some t) db = t

module _ {T : Type 0} where
  -- The state after a call has taken its fault.
  abbrev pub spent : World T → World T
  spent w = record w { faults = later_faults w.faults }

  abbrev pub with_fault : {A : Type 0} → Exec (World T) Exn A → Exec (World T) Exn A
  with_fault m w = if next_fault w.faults then (err sqlite_error, spent w) else m (spent w)

  -- A statement that reads.
  unfoldable pub query : {A : Type 0} → (Tables → A) → Exec (World T) Exn A
  unfolding next_fault later_faults current
  query f = with_fault λ w. (ok (f (current w.working w.committed)), w)

  store : Tables → World T → World T
  store t w = elim w.working [
    | none ↦ record w { committed = t }
    | some _ ↦ record w { working = some t }
  ]

  -- A statement that writes; `none` is a violated constraint.
  unfoldable pub execute : {A : Type 0} → (Tables → Option (Tables × A)) → Exec (World T) Exn A
  unfolding next_fault later_faults current store
  execute f = with_fault λ w. elim (f (current w.working w.committed)) [
    | none ↦ (err sqlite_error, w)
    | some (t, a) ↦ (ok a, store t w)
  ]

  -- BEGIN, BEGIN IMMEDIATE
  unfoldable pub begin : Exec (World T) Exn Unit
  unfolding next_fault later_faults
  begin = with_fault λ w. elim w.working [
    | none ↦ (ok tt, record w { working = some w.committed })
    | some _ ↦ (err sqlite_error, w)
  ]

  -- connection.commit()
  unfoldable pub commit : Exec (World T) Exn Unit
  unfolding next_fault later_faults current
  commit =
      with_fault
        λ w. (ok tt, record w { committed = current w.working w.committed; working = none })

  -- connection.rollback(), and what connection.close() does to an open transaction
  abbrev pub rollback : World T → World T
  rollback w = record w { working = none }

  -- except ReplicationError: rollback, raise
  -- except sqlite3.Error: rollback, raise database_integrity_failure
  unfoldable pub abort : {A : Type 0} → Exn → Exec (World T) Exn A
  abort (replication e) w = (err (replication e), rollback w)
  abort sqlite_error w = (err (failure "database_integrity_failure" 7), rollback w)
  abort (foreign n) w = (err (foreign n), w)

  -- try: BEGIN IMMEDIATE, the body, commit; with the handlers above
  unfoldable pub transaction : {A : Type 0} → Exec (World T) Exn A → Exec (World T) Exn A
  unfolding begin commit abort
  transaction body = catch (begin >> (body >>= λ a. commit >> pure a)) abort
