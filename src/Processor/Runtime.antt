-- ===== src/Processor/Runtime.antt =====
-- What the processor worker takes from outside the repository, and the exceptions of its modules
-- (components/processor-worker/apps/edge_agent). The text of a message is kept only where code reads
-- it: the message of a busy lock.
use edge_evidence_showcase.Prelude.{ℕ, Bool, true, false, Option, List, Text}
use edge_evidence_showcase.Exec.{Result, ok, err}
use edge_evidence_showcase.Processor.Json.{Json}

-- sqlite3.IntegrityError, sqlite3.OperationalError, and the other errors of the module.
pub data SqliteError : Type 0 where
  integrity operational unspecified : SqliteError

-- `failure` is a FinalizeError, a RegisterError or a ProcessError by its code, and `lock_busy` the
-- one of them with the message of a busy lock; `processing` is fingerprint.ProcessingError;
-- `collision` is staging._PublishCollision; `overflow` is OverflowError; `killed` ends the process.
pub data Error : Type 0 where
  failure : ℕ → Error
  lock_busy : Error
  processing : ℕ → Error
  sqlite : SqliteError → Error
  os_error overflow collision killed : Error

-- What ffprobe does with a file: it is not on the path, it fails or writes what the caller does not
-- understand, or it names a profile; the duration is in microseconds.
pub record Profile : Type 0 where
  pub codec : Text
  pub width : ℕ
  pub height : ℕ
  pub frame_rate : Text
  pub frames : ℕ
  pub duration : ℕ

pub data Probe : Type 0 where
  no_tool no_profile : Probe
  profiled : Profile → Probe

-- hashlib.sha256(…).hexdigest(), str(uuid.uuid5(NAMESPACE_URL, …)), json.loads after decode("utf-8"),
-- datetime.fromisoformat and isoformat, on instants in microseconds from the first that a datetime
-- can name, and ffprobe.
pub record Runtime : Type 0 where
  pub sha256 : List ℕ → Text
  pub uuid5 : Text → Text
  pub loads : List ℕ → Option Json
  pub fromisoformat : Text → Option ℕ
  pub isoformat : ℕ → Text
  pub ffprobe : List ℕ → Probe

-- if not condition: raise …(code=code)
abbrev pub require : Bool → ℕ → Result Error Unit
require true code = ok tt
require false code = err (failure code)
