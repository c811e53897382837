-- ===== src/Processor/Locking.antt =====
-- components/processor-worker/apps/edge_agent/lock.py: the advisory lock of one spool. The attempts
-- of a run stand in the state; when they are used up, the lock is free.
use edge_evidence_showcase.Prelude.{
  ℕ, not, ◌||◌, Option, none, some, List, [], ◌∷◌, Text, text, text_eq, leb, if◌then◌else◌,
}
use edge_evidence_showcase.Exec.{Result, ok, err, ◌>>=◌, ◌>>◌}
use edge_evidence_showcase.Processor.Runtime.{Error, failure, lock_busy}
use edge_evidence_showcase.Processor.Machine.{
  Attempt, granted, broken, busy, Item, regular, Call, look, ensure, check, probe, set_files,
  item_at, put_item, is_link, on_os_error,
}

-- LOCK_FILENAME, below the spool root
abbrev pub lock_path : Text
lock_path = text ".edge-agent.lock"

-- _LOCK_TIMEOUT_SECONDS, in milliseconds
abbrev pub lock_timeout : ℕ
lock_timeout = 5000

-- What `os.open` with O_CREAT and O_NOFOLLOW, and the test of the file behind it, leave.
unfoldable pub opened_item : Option Item → Call Unit
opened_item none m = (ok tt, set_files (put_item lock_path (regular []) m.files) m)
opened_item (some (regular _)) m = (ok tt, m)
opened_item (some _) m = (err (failure 5), m)

unfoldable pub opened : Call Unit
opened m = opened_item (item_at lock_path m.files) m

-- _open_lock_file; the last probe is `fstat`.
unfoldable pub open_lock_file : Call Unit
open_lock_file = do
  i ← look lock_path
  ensure (not (is_link i)) (failure 5)
  on_os_error 5 probe
  opened
  on_os_error 5 probe

-- while True: flock …, over the attempts
unfoldable pub acquire : List Attempt → Result Error Unit
acquire [] = ok tt
acquire (granted ∷ more) = ok tt
acquire (broken ∷ more) = err (failure 7)
acquire (busy elapsed ∷ more) =
    let next = acquire more in if leb lock_timeout elapsed then err lock_busy else next

unfoldable pub acquired : Call Unit
acquired m = (acquire m.attempts, record m { attempts = [] })

-- spool_lock around a block. The end of the block releases the lock, which raises nothing.
unfoldable pub spool_lock : {A : Type 0} → Text → Call A → Call A
spool_lock mode body = do
  ensure (text_eq mode (text "exclusive") || text_eq mode (text "shared")) (failure 7)
  check (λ m. m.root_exists) (failure 5)
  open_lock_file
  acquired
  body
