-- ===== src/Processor.antt =====
-- Parts of components/processor-worker.
pub mod History
pub mod Identity
pub mod Json
pub mod Runtime
pub mod Instants
pub mod Manifest
pub mod Report
pub mod Rows
pub mod Ledger
pub mod Machine
pub mod Locking
pub mod Verification
pub mod Staging
pub mod Plan
pub mod Planning
pub mod Occurrences
pub mod Registration
pub mod Capture
pub mod Evidence
pub mod Jobs
pub mod Publishing
pub mod Process
pub mod Catchup
pub mod Stable
pub mod Immutable
pub mod Reads
pub mod Verified
pub mod Transactions
pub mod Outcome
pub mod Gate
pub mod Completion
