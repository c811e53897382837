-- ===== src/Worker.antt =====
-- components/replication-worker/packages/replication/core/worker.py: the bounded convergence of a
-- replication target, over any target of the interface in contracts/target.py.
pub mod Binding
pub mod Reconciling
pub mod Running
pub mod Safety
pub mod Completion
pub mod Initializing
pub mod Verifying
