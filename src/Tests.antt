-- ===== src/Tests.antt =====
-- Sample data, a target in memory, and runs of the model on them.
pub mod Memory
pub mod Samples
pub mod Worker
pub mod Authority
pub mod Contracts
pub mod Processor
pub mod Migrating
pub mod Deriving
pub mod Registering
pub mod Derived
