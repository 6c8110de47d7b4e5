-- ===== src/Examples.antt =====
-- Concrete JSON values and a concrete Redis server, and the library's theorems at them.
pub mod Values
pub mod Memory
pub mod Samples
mod Transitions
pub mod Server
mod Commits
mod Reads
mod Claims
mod Counts
pub mod Protocol
mod Ids
mod Stream
pub mod Codec
pub mod Quiet
mod Clients
mod Worker
mod Requests
