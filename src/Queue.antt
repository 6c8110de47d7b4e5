-- ===== src/Queue.antt =====
-- crates/core/src/queue.rs
pub mod StreamId
pub mod Order
pub mod Range
pub mod Entries
pub mod Batch
pub mod Claim
pub mod Stats
pub mod Pages
pub mod Ordered
pub mod Sorted
pub mod Counts
pub mod Cursor
pub mod Forward
pub mod Filled
pub mod Fill
pub mod Calm
pub mod Keeps
pub mod Position
pub mod Connect
