-- ===== src/Processor/Stable.antt =====
-- What every run of components/processor-worker/apps/edge_agent/process.py keeps: a property of the
-- machine that its single effects keep is kept by each call, however the call ends.
pub mod Staging
pub mod Jobs
pub mod Publishing
pub mod Process
use edge_evidence_showcase.Prelude.{
  ℕ, ◌≡◌, refl, subst, sym, Bool, true, false, not, Option, none, some, Option-cases, Bool-cases,
  inl, inr, List, [], ◌∷◌, ◌++◌, Text, text, take, arith, if◌then◌else◌,
}
use edge_evidence_showcase.Exec.{Result, ok, err, Exec, pure, raise, catch, ◌>>=◌, ◌>>◌}
use edge_evidence_showcase.Exec.Triple.{
  Triple, Post, Keeps, Keeps-raise, Keeps-pure, Keeps-bind, Triple-catch,
}
use edge_evidence_showcase.Contracts.{starts_with}
use edge_evidence_showcase.Processor.Runtime.{
  Error, failure, lock_busy, processing, sqlite, os_error, overflow, collision, killed, SqliteError,
}
use edge_evidence_showcase.Processor.Ledger.{Ledger}
use edge_evidence_showcase.Processor.Ledger.Steps.{LedgerStep}
use edge_evidence_showcase.Processor.Machine.{
  Fault, fine, refused, crash, Item, regular, folder, link, special, Machine, next_fault, Call,
  spent, current, with_sqlite, with_system, sqlite_call, system_call, query, store, execute, begin,
  commit, rollback, item_at, put_item, remove_item, is_there, is_file, read_item, read_bytes, probe,
  set_files, coded, on_os_error, make_folder, make_folders, make_parents, parents, create, content,
  append_by, append, hard_link, unlink,
}

-- The place of the partials of a job.
abbrev pub IsPartial : Text → Type 0
IsPartial path = starts_with path (text "partial/processing/") ≡ true

-- A property that a fault used up keeps, which is all that reading does.
abbrev pub Spends : (Machine → Type 0) → Type 0
Spends P = (m : Machine) → P m → P (spent m)

pub record Stable (P : Machine → Type 0) : Type 0 where
  pub spending : (m : Machine) → P m → P (spent m)
  pub locking : (m : Machine) → P m → P (record m { attempts = [] })
  pub adding :
      (m : Machine) (path : Text) (item : Item)
      → item_at path m.files ≡ none
      → P m
      → P (set_files (put_item path item m.files) m)
  pub writing :
      (m : Machine) (path : Text) (item : Item)
      → IsPartial path
      → P m
      → P (set_files (put_item path item m.files) m)
  pub removing :
      (m : Machine) (path : Text)
      → IsPartial path
      → P m
      → P (set_files (remove_item path m.files) m)
  pub beginning :
      (m : Machine) → m.working ≡ none → P m → P (record m { working = some m.committed })
  pub committing :
      (m : Machine)
      → P m
      → P (record m { committed = current m.working m.committed; working = none })
  pub rolling : (m : Machine) → P m → P (rollback m)
  pub storing :
      (m : Machine) (t : Ledger)
      → LedgerStep (current m.working m.committed) t
      → P m
      → P (store t m)

module _ (P : Machine → Type 0) (sp : Spends P) where
  with_sqlite-Keeps :
      {A : Type 0} (body : Call A) (f : Fault) → Keeps P body → Keeps P (with_sqlite body f)
  unfolding with_sqlite
  with_sqlite-Keeps body fine k = k
  with_sqlite-Keeps body (refused e) k = Keeps-raise (sqlite e)
  with_sqlite-Keeps body (crash n) k = Keeps-raise killed

  with_system-Keeps :
      {A : Type 0} (body : Call A) (f : Fault) → Keeps P body → Keeps P (with_system body f)
  unfolding with_system
  with_system-Keeps body fine k = k
  with_system-Keeps body (refused e) k = Keeps-raise os_error
  with_system-Keeps body (crash n) k = Keeps-raise killed

  pub sqlite_call-Keeps : {A : Type 0} (body : Call A) → Keeps P body → Keeps P (sqlite_call body)
  sqlite_call-Keeps body k = record {
    at = λ m p. (with_sqlite-Keeps body (next_fault m.faults) k).at (spent m) (sp m p);
  }

  pub system_call-Keeps : {A : Type 0} (body : Call A) → Keeps P body → Keeps P (system_call body)
  system_call-Keeps body k = record {
    at = λ m p. (with_system-Keeps body (next_fault m.faults) k).at (spent m) (sp m p);
  }

  pub query-Keeps : {A : Type 0} (f : Ledger → A) → Keeps P (query f)
  unfolding query
  query-Keeps f = sqlite_call-Keeps _ (record { at = λ m p. p })

  -- Calls of the operating system.
  coded-Keeps : {A : Type 0} (code : ℕ) (x : Error) → Keeps {A = A} P (coded code x)
  unfolding coded
  coded-Keeps code os_error = Keeps-raise (failure code)
  coded-Keeps code (failure c) = Keeps-raise (failure c)
  coded-Keeps code lock_busy = Keeps-raise lock_busy
  coded-Keeps code (processing c) = Keeps-raise (processing c)
  coded-Keeps code (sqlite e) = Keeps-raise (sqlite e)
  coded-Keeps code overflow = Keeps-raise overflow
  coded-Keeps code collision = Keeps-raise collision
  coded-Keeps code killed = Keeps-raise killed

  pub catch-Keeps :
      {A : Type 0} (body : Call A) (h : Error → Call A)
      → Keeps P body
      → ((x : Error) → Keeps P (h x))
      → Keeps P (catch body h)
  catch-Keeps body h k l = Triple-catch body h (λ _. P) k l

  pub on_os_error-Keeps :
      {A : Type 0} (code : ℕ) (body : Call A) → Keeps P body → Keeps P (on_os_error code body)
  on_os_error-Keeps code body k = catch-Keeps body (coded code) k (coded-Keeps code)

  pub probe-Keeps : Keeps P probe
  unfolding probe
  probe-Keeps = system_call-Keeps _ (record { at = λ m p. p })

  read_found : (o : Option Item) (m : Machine) → P m → Post (λ _. P) (λ _. P) (read_item o, m)
  unfolding read_item
  read_found none m p = p
  read_found (some (regular bytes)) m p = p
  read_found (some (folder d)) m p = p
  read_found (some link) m p = p
  read_found (some special) m p = p

  pub read_bytes-Keeps : (path : Text) → Keeps P (read_bytes path)
  unfolding read_bytes
  read_bytes-Keeps path =
      system_call-Keeps _ (record { at = λ m p. read_found (item_at path m.files) m p })

module _ (P : Machine → Type 0) (s : Stable P) where
  executed :
      (f : Ledger → Option Ledger) (m : Machine) (o : Option Ledger)
      → ((t : Ledger) → o ≡ some t → LedgerStep (current m.working m.committed) t)
      → P m
      → Post {X = Error} {A = Unit}
          (λ _. P)
          (λ _. P)
          (elim o [ none ↦ (err (sqlite SqliteError.integrity), m) | some t ↦ (ok tt, store t m) ])
  executed f m none k p = p
  executed f m (some t) k p = s.storing m t (k t refl) p

  pub execute-Keeps :
      (f : Ledger → Option Ledger)
      → ((db t : Ledger) → f db ≡ some t → LedgerStep db t)
      → Keeps P (execute f)
  unfolding execute
  execute-Keeps f k = sqlite_call-Keeps P s.spending _ (record {
    at = λ m p.
        executed f m (f (current m.working m.committed)) (k (current m.working m.committed)) p;
  })

  begun :
      (m : Machine) (o : Option Ledger)
      → m.working ≡ o
      → P m
      → Post {X = Error} {A = Unit}
          (λ _. P)
          (λ _. P)
          (elim o [
            | none ↦ (ok tt, record m { working = some m.committed })
            | some _ ↦ (err (sqlite SqliteError.operational), m)
          ])
  begun m none e p = s.beginning m e p
  begun m (some t) e p = p

  pub begin-Keeps : Keeps P begin
  unfolding begin
  begin-Keeps = sqlite_call-Keeps P s.spending _ (record { at = λ m p. begun m m.working refl p })

  pub commit-Keeps : Keeps P commit
  unfolding commit
  commit-Keeps = sqlite_call-Keeps P s.spending _ (record { at = s.committing })

  folder_made :
      (above : ℕ) (path : Text) (m : Machine) (o : Option Item)
      → item_at path m.files ≡ o
      → P m
      → Post (λ _. P) (λ _. P) (make_folder above path o m)
  unfolding make_folder
  folder_made above path m none e p = s.adding m path (folder above) e p
  folder_made above path m (some (folder d)) e p = p
  folder_made above path m (some (regular b)) e p = p
  folder_made above path m (some link) e p = p
  folder_made above path m (some special) e p = p

  make_folders-Keeps : (above : ℕ) (ps : List Text) → Keeps P (make_folders above ps)
  unfolding make_folders
  make_folders-Keeps above [] = Keeps-pure tt
  make_folders-Keeps above (path ∷ ps) =
      Keeps-bind _ _
        (system_call-Keeps P s.spending _
          (record { at = λ m p. folder_made above path m (item_at path m.files) refl p }))
        (λ device. make_folders-Keeps device ps)

  pub make_parents-Keeps : (path : Text) → Keeps P (make_parents path)
  unfolding make_parents
  make_parents-Keeps path = record {
    at = λ m p. (make_folders-Keeps m.device (parents path)).at m p;
  }

  created_new :
      (path : Text) (item : Item) (m : Machine) (o : Option Item)
      → item_at path m.files ≡ o
      → P m
      → Post {X = Error}
          (λ _. P)
          (λ _. P)
          (if is_there o
            then (ok false, m)
            else (ok true, set_files (put_item path item m.files) m))
  unfolding is_there
  created_new path item m none e p = s.adding m path item e p
  created_new path item m (some i) e p = p

  pub create-Keeps : (path : Text) → Keeps P (create path)
  unfolding create
  create-Keeps path =
      system_call-Keeps P s.spending _
        (record { at = λ m p. created_new path (regular []) m (item_at path m.files) refl p })

  appended :
      (f : Fault) (path : Text) (bytes : List ℕ) → IsPartial path → Keeps P (append_by f path bytes)
  unfolding append_by
  appended fine path bytes i = record { at = λ m p. s.writing m path _ i p }
  appended (refused e) path bytes i = record { at = λ m p. p }
  appended (crash n) path bytes i = record { at = λ m p. s.writing m path _ i p }

  pub append-Keeps : (path : Text) (bytes : List ℕ) → IsPartial path → Keeps P (append path bytes)
  unfolding append
  append-Keeps path bytes i = record {
    at = λ m p. (appended (next_fault m.faults) path bytes i).at (spent m) (s.spending m p);
  }

  linked_new :
      (target : Text) (item : Item) (m : Machine) (b : Bool) (o : Option Item)
      → item_at target m.files ≡ o
      → P m
      → Post
          (λ _. P)
          (λ _. P)
          (if is_there o
            then (ok false, m)
            else if b
            then (ok true, set_files (put_item target item m.files) m)
            else (err os_error, m))
  unfolding is_there
  linked_new target item m true none e p = s.adding m target item e p
  linked_new target item m false none e p = p
  linked_new target item m b (some i) e p = p

  pub hard_link-Keeps : (source target : Text) → Keeps P (hard_link source target)
  unfolding hard_link
  hard_link-Keeps source target = system_call-Keeps P s.spending _ (record {
    at = λ m p.
        linked_new target _ m (is_file (item_at source m.files)) (item_at target m.files) refl p;
  })

  pub unlink-Keeps : (path : Text) → IsPartial path → Keeps P (unlink path)
  unfolding unlink
  unlink-Keeps path i =
      system_call-Keeps P s.spending _ (record { at = λ m p. s.removing m path i p })
