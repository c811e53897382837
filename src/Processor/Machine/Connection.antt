-- ===== src/Processor/Machine/Connection.antt =====
-- The machine that the processor worker runs on, its faults, and the statements of its connection.
use edge_evidence_showcase.Prelude.{ℕ, Bool, true, false, Option, none, some, List, [], ◌∷◌, Text}
use edge_evidence_showcase.Exec.{Result, ok, err, Exec, raise}
use edge_evidence_showcase.Processor.Runtime.{SqliteError, Error, sqlite, os_error, killed}
use edge_evidence_showcase.Processor.Ledger.{Ledger}

pub data Fault : Type 0 where
  fine : Fault
  refused : SqliteError → Fault
  crash : ℕ → Fault

-- One attempt to take the lock: another process holds it, with the milliseconds since the first
-- attempt, or the call fails for another reason.
pub data Attempt : Type 0 where
  granted broken : Attempt
  busy : ℕ → Attempt

-- What a name of the spool stands for. A folder has the number of its device.
pub data Item : Type 0 where
  regular : List ℕ → Item
  folder : ℕ → Item
  link special : Item

abbrev pub Files : Type 0
Files = List (Text × Item)

pub record Machine : Type 0 where
  pub committed : Ledger
  pub working : Option Ledger
  pub root_exists : Bool
  pub device : ℕ
  pub files : Files
  pub attempts : List Attempt
  pub faults : List Fault
  pub clock : ℕ

unfoldable pub next_fault : List Fault → Fault
next_fault [] = fine
next_fault (f ∷ fs) = f

unfoldable pub later_faults : List Fault → List Fault
later_faults [] = []
later_faults (f ∷ fs) = fs

abbrev pub Call : Type 0 → Type 0
Call A = Exec Machine Error A

abbrev pub spent : Machine → Machine
spent m = record m { faults = later_faults m.faults }

-- What a statement reads: the open transaction, or the committed tables.
unfoldable pub current : Option Ledger → Ledger → Ledger
current none db = db
current (some t) db = t

-- What the code looks at.
unfoldable pub look_at : {A : Type 0} → (Machine → A) → Call A
look_at f m = (ok (f m), m)

-- A pure call.
unfoldable pub attempt : {A : Type 0} → Result Error A → Call A
attempt r m = (r, m)

-- if not condition: raise x
unfoldable pub ensure : Bool → Error → Call Unit
ensure true x m = (ok tt, m)
ensure false x m = (err x, m)

-- The same of what the code looks at.
unfoldable pub check : (Machine → Bool) → Error → Call Unit
unfolding ensure
check f x m = ensure (f m) x m

-- A statement's call, by its fault.
unfoldable pub with_sqlite : {A : Type 0} → Call A → Fault → Call A
with_sqlite body fine = body
with_sqlite body (refused e) = raise (sqlite e)
with_sqlite body (crash n) = raise killed

-- A call of the operating system, by its fault.
unfoldable pub with_system : {A : Type 0} → Call A → Fault → Call A
with_system body fine = body
with_system body (refused e) = raise os_error
with_system body (crash n) = raise killed

abbrev pub sqlite_call : {A : Type 0} → Call A → Call A
sqlite_call body m = with_sqlite body (next_fault m.faults) (spent m)

abbrev pub system_call : {A : Type 0} → Call A → Call A
system_call body m = with_system body (next_fault m.faults) (spent m)

-- A statement that reads.
unfoldable pub query : {A : Type 0} → (Ledger → A) → Call A
unfolding next_fault later_faults current with_sqlite
query f = sqlite_call λ m. (ok (f (current m.working m.committed)), m)

unfoldable pub store : Ledger → Machine → Machine
store t m = elim m.working [
  | none ↦ record m { committed = t }
  | some _ ↦ record m { working = some t }
]

-- A statement that writes; `none` is a violated constraint, or a trigger that aborts.
unfoldable pub execute : (Ledger → Option Ledger) → Call Unit
unfolding next_fault later_faults current store with_sqlite
execute f = sqlite_call λ m. elim (f (current m.working m.committed)) [
  | none ↦ (err (sqlite SqliteError.integrity), m)
  | some t ↦ (ok tt, store t m)
]

-- BEGIN IMMEDIATE
unfoldable pub begin : Call Unit
unfolding next_fault later_faults with_sqlite
begin = sqlite_call λ m. elim m.working [
  | none ↦ (ok tt, record m { working = some m.committed })
  | some _ ↦ (err (sqlite SqliteError.operational), m)
]

unfoldable pub commit : Call Unit
unfolding next_fault later_faults current with_sqlite
commit =
    sqlite_call λ m. (ok tt, record m { committed = current m.working m.committed; working = none })

-- rollback(), and what close() and the end of the process do to an open transaction
abbrev pub rollback : Machine → Machine
rollback m = record m { working = none }

unfoldable pub roll_back : Call Unit
roll_back m = (ok tt, rollback m)
