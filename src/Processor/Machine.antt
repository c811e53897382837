-- ===== src/Processor/Machine.antt =====
-- What a run of the processor worker acts on: one connection to its database, the files below the
-- spool root and the spool lock. Each statement and each call of the operating system that may fail
-- takes the next entry of `faults`: it works, or it fails before any effect, or the process is
-- killed there. A process that is killed while it writes leaves a part of the bytes.
pub mod Connection
use edge_evidence_showcase.Prelude.{
  ℕ, Bool, true, false, Option, none, some, List, [], ◌∷◌, ◌++◌, Text, text_eq, take, ◌==◌,
  if◌then◌else◌,
}
use edge_evidence_showcase.Exec.{Result, ok, err, Exec, pure, raise, catch, ◌>>=◌}
use edge_evidence_showcase.Contracts.{slash}
use edge_evidence_showcase.Processor.Runtime.{SqliteError, Error, failure, sqlite, os_error, killed}
use edge_evidence_showcase.Processor.Ledger.{Ledger}
unfoldable pub use edge_evidence_showcase.Processor.Machine.Connection.{
  next_fault, later_faults, current, look_at, attempt, ensure, check, with_sqlite, with_system,
  query, store, execute, begin, commit, roll_back,
}
pub use edge_evidence_showcase.Processor.Machine.Connection.{
  Fault, Attempt, Item, Files, Machine, Call, spent, sqlite_call, system_call, rollback, fine,
  refused, crash, granted, broken, busy, regular, folder, link, special,
}

unfoldable pub item_at : Text → Files → Option Item
item_at path [] = none
item_at path ((p, i) ∷ fs) = if text_eq p path then some i else item_at path fs

-- The files with one entry set, or added at the end.
unfoldable pub put_item : Text → Item → Files → Files
put_item path item [] = (path, item) ∷ []
put_item path item ((p, i) ∷ fs) =
    let rest = put_item path item fs in if text_eq p path then (p, item) ∷ fs else (p, i) ∷ rest

unfoldable pub remove_item : Text → Files → Files
remove_item path [] = []
remove_item path ((p, i) ∷ fs) =
    let rest = remove_item path fs in if text_eq p path then rest else (p, i) ∷ rest

-- The folders above a path, from the first one down.
unfoldable pub parents_from : Text → Text → List Text
parents_from seen [] = []
parents_from seen (c ∷ s) =
    let rest = parents_from (seen ++ c ∷ []) s in if c == slash then seen ∷ rest else rest

unfoldable pub parents : Text → List Text
unfolding parents_from
parents path = parents_from [] path

unfoldable pub is_link : Option Item → Bool
is_link (some link) = true
is_link _ = false

unfoldable pub look : Text → Call (Option Item)
unfolding item_at
look path m = (ok (item_at path m.files), m)

-- A link counts as no file: every caller has refused links before.
unfoldable pub is_file : Option Item → Bool
is_file (some (regular _)) = true
is_file _ = false

unfoldable pub is_there : Option Item → Bool
is_there none = false
is_there (some _) = true

-- read_bytes()
unfoldable pub read_item : Option Item → Result Error (List ℕ)
read_item (some (regular bytes)) = ok bytes
read_item _ = err os_error

unfoldable pub read_bytes : Text → Call (List ℕ)
unfolding item_at read_item next_fault later_faults with_system
read_bytes path = system_call λ m. (read_item (item_at path m.files), m)

-- A call without an effect of its own: resolve, stat, fsync.
unfoldable pub probe : Call Unit
unfolding next_fault later_faults with_system
probe = system_call λ m. (ok tt, m)

unfoldable pub set_files : Files → Machine → Machine
set_files fs m = record m { files = fs }

-- except OSError: raise …(code=code)
unfoldable pub coded : {A : Type 0} → ℕ → Error → Call A
coded code os_error = raise (failure code)
coded code x = raise x

abbrev pub on_os_error : {A : Type 0} → ℕ → Call A → Call A
on_os_error code body = catch body (coded code)

-- What one step of mkdir finds.
unfoldable pub make_folder : ℕ → Text → Option Item → Machine → Result Error ℕ × Machine
unfolding put_item set_files
make_folder above path none m = (ok above, set_files (put_item path (folder above) m.files) m)
make_folder above path (some (folder device)) m = (ok device, m)
make_folder above path (some _) m = (err os_error, m)

-- mkdir(parents=True, exist_ok=True) of each of these folders: a new one is on the device above it
unfoldable pub make_folders : ℕ → List Text → Call Unit
unfolding make_folder item_at next_fault later_faults with_system
make_folders above [] = pure tt
make_folders above (p ∷ ps) =
    system_call (λ m. make_folder above p (item_at p m.files) m) >>= λ device.
    make_folders device ps

-- path.parent.mkdir(parents=True, exist_ok=True)
unfoldable pub make_parents : Text → Call Unit
unfolding make_folders parents
make_parents path m = make_folders m.device (parents path) m

-- os.open(path, O_WRONLY | O_CREAT | O_EXCL): false where the name is taken
unfoldable pub create : Text → Call Bool
unfolding item_at is_there put_item set_files next_fault later_faults with_system
create path = system_call λ m.
    if is_there (item_at path m.files)
    then (ok false, m)
    else (ok true, set_files (put_item path (regular []) m.files) m)

unfoldable pub content : Option Item → List ℕ
content (some (regular bytes)) = bytes
content _ = []

-- write, flush and fsync at the end of a file that this process has created
unfoldable pub append_by : Fault → Text → List ℕ → Call Unit
unfolding item_at put_item set_files content
append_by fine path bytes m =
    (ok tt, set_files (put_item path (regular (content (item_at path m.files) ++ bytes)) m.files) m)
append_by (refused e) path bytes m = (err os_error, m)
append_by (crash n) path bytes m = (
  err killed,
  set_files (put_item path (regular (content (item_at path m.files) ++ take n bytes)) m.files) m,
)

unfoldable pub append : Text → List ℕ → Call Unit
unfolding append_by next_fault later_faults
append path bytes m = append_by (next_fault m.faults) path bytes (spent m)

-- os.link(source, target): false where the target is taken
unfoldable pub hard_link : Text → Text → Call Bool
unfolding item_at is_there put_item set_files content next_fault later_faults with_system
hard_link source target = system_call λ m.
    if is_there (item_at target m.files)
    then (ok false, m)
    else if is_file (item_at source m.files)
    then (
      ok true,
      set_files (put_item target (regular (content (item_at source m.files))) m.files) m,
    )
    else (err os_error, m)

-- unlink of a name that may be missing
unfoldable pub unlink : Text → Call Unit
unfolding remove_item set_files next_fault later_faults with_system
unlink path = system_call λ m. (ok tt, set_files (remove_item path m.files) m)
