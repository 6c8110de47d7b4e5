-- ===== src/Store.antt =====
-- crates/core/src/store.rs
pub mod Prepare
pub mod Lifecycle
pub mod Diagram
pub mod Runs
pub mod Stamps
pub mod Transaction
pub mod Operations
pub mod Reads
pub mod Capabilities
pub mod Version
pub mod Retry
pub mod Atomic
pub mod Commit
pub mod Stale
pub mod Reconciled
pub mod Built
pub mod Connect
pub mod Spec
pub mod Quiet
