-- ===== src/Lib.antt =====
-- A verification of the two workers of this repository: the replication worker and the processor worker.
--
-- The program. The repository holds two workers beside a capture agent: the processor worker
-- (components/processor-worker) derives artifacts from captured ones, and the replication worker
-- (components/replication-worker) copies the finalized files of a spool to a target. The two share no
-- code that runs here: each acts on its own tables of one database.
--
-- The replication worker's core lives in packages/replication: `discover`
-- reads what is finalized from one snapshot of the SQLite database, `register_discovered` adds a
-- PENDING row for each object that has none, and `run` takes the PENDING rows in order: it counts
-- an attempt, reads and hashes the local file, publishes it through the target, and marks the row
-- VERIFIED. `reconcile` adopts what the target holds already, `verify` reads the VERIFIED objects
-- back, and `init_target` binds a target to its row. The database of migration 10 guards the rows
-- by CHECKs and triggers.
--
-- The processor worker's `run` takes a snapshot of the eligible recordings and calls
-- `process_artifact` for each one. Under the spool lock, `process_artifact` proves the evidence of the
-- recording, plans a report and its manifest, records a PREPARED job, publishes the report and then
-- the manifest by links that replace nothing, records the artifact, its lineage and the COMPLETE job
-- in one transaction, and reads all of it again. A COMPLETE job is only read again.
--
-- The modules, with the files that they model, of components/replication-worker where it does not
-- say otherwise:
--   Prelude     names of the libraries, texts as lists of code points, lists, sorting
--   Exec        Python calls with a state and exceptions, and rules to reason about them
--   Contracts   packages/replication/contracts/model.py: `validate_target_id`, `validate_sha256`,
--               `canonical_file_uri` (with `str.split` in Contracts/Split), `ReplicaObject` in
--               Contracts/Objects
--   Database    packages/database/replication_target_migration_v10.py: rows and tables; the
--               constraints and the statements under them in Database/Schema; transactions in
--               Database/Session; the SQL of the authority in Database/Statements; `migrate` of
--               packages/database/migrations.py in Database/Migrating
--   Spool       packages/replication/core/source.py: `source_path`, `local_size_and_hash`
--   Authority   packages/replication/core/authority.py, all but `discover`
--   Discovery   `discover` and `_manifest_object` of the same file
--   Target      packages/replication/contracts/target.py: the interface of a target as a record of
--               operations, and the promises of its docstrings as a record of laws
--   Worker      packages/replication/core/worker.py: `init_target` (Worker/Binding), `reconcile` and
--               `verify` (Worker/Reconciling), `run` (Worker/Running); their theorems stand in
--               Worker/Initializing, Worker/Verifying, Worker/Safety and Worker/Completion
--   Processor   of components/processor-worker; apps/edge_agent is meant where no folder is named:
--     History, Identity   migration_history.py; `job_uri_name` of packages/processing/fingerprint.py
--     Json, Runtime       json.dumps with sorted keys; the errors, and the library calls as a record
--     Instants, Manifest  finalize.py: time stamps, patterns, the manifest and its shape guard
--     Report              packages/processing/fingerprint.py: parameters, job keys, the report
--     Rows, Ledger        the tables of migration 4 in packages/database/migrations.py; every change
--                         of them as a relation in Ledger/Steps, its invariant in Ledger/Sound
--     Machine, Locking    the connection (Machine/Connection), the files and the lock with their
--                         faults; lock.py
--     Verification        verification.py: paths within the spool, the media and the manifest
--     Staging             staging.py: guards, partials, publication, quarantine
--     Plan, Evidence, Jobs, Publishing, Process   process.py, in this order of its parts
--     Catchup             apps/processor_worker/worker.py: `snapshot`, `run`
--     Occurrences, Registration   register.py: the identities of an occurrence and its event; the
--                         shape guard of the event, `plan_registration`
--     Capture             finalize.py: the descriptor of a recording, `validate_request`,
--                         `capture_ended_at`
--     Stable, Reads       what every call keeps, and what a call that returns has read
--     Planning, Gate, Transactions, Verified, Immutable, Outcome, Completion   the theorems
--   Tests       a target in memory, a spool with a recording, and the theorems applied to them
--
-- The state. A `World` has the committed tables, the tables of an open transaction, a list that says
-- which of the next database calls fail, a clock, and the state of the target, which is any type. A
-- call gives a result or an exception together with the world that it leaves, so that what was
-- committed before a `raise` stays committed. In the replication worker, an exception is a `ReplicationError` with its finding
-- and code, an `sqlite3.Error`, or a foreign one.
-- In the processor worker, a `Machine` has the tables, the files of the spool by name, the attempts at
-- the lock, and a list of faults: each statement and each call of the operating system takes the next
-- one, and works, fails before any effect, or is where the process is killed. A write that is killed
-- leaves a part of its bytes. A killed process raises nothing that a handler catches.
--
-- Bounds. The loop that reads a file in chunks of one MiB runs on fuel, one more than the length of
-- the file; every other loop goes over a list. Sizes, codes and stamps are natural numbers; an instant
-- and the duration that ffprobe reports are in microseconds.
--
-- What is assumed. The effect of a migration's SQL on the rest of the database is a parameter of
-- `migrate`, and its rollback gives back the database from before. SHA-256 is a parameter, any function from bytes to text. A replication target is
-- a parameter with the laws of Target.antt, which the theorems that need them name. `rollback` and
-- `close` do not fail. One connection at a time acts on the database, and nothing else changes the
-- spool while a call runs. `PurePosixPath` and SQLite's LIKE, GLOB and ORDER BY are modelled as far
-- as the code uses them.
--
-- The processor worker has the library calls of Processor/Runtime as parameters: SHA-256, UUIDv5,
-- json.loads, datetime's parsing and printing, and ffprobe. A link counts as no file, which the
-- guards before every use make the only case; fsync has no effect but may fail. The database has the
-- table capture_occurrence_assertions, which migration 7 creates: `process_artifact` accepts a history
-- from migration 4 on, and its query would raise an sqlite3.Error in the older databases.
--
-- What is not modelled: `run_exact` of both workers, with the projections, the manifest and the
-- implementation identity; the GCS and NFS adapters; the command lines, with the transaction in which
-- the edge agent stores a registration; the agent contracts; `copy_hash_fsync` of staging.py; the crash
-- barriers, which do nothing in production; the texts of messages; the durability of what fsync has
-- flushed; the optional pilot; the demos, scripts and infrastructure checks.
pub mod Prelude
pub mod Exec
pub mod Contracts
pub mod Database
pub mod Spool
pub mod Authority
pub mod Discovery
pub mod Target
pub mod Worker
pub mod Processor
pub mod Tests
