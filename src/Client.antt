-- ===== src/Client.antt =====
-- The client library, crates/client/src: its errors, its records, and its calls.
pub mod Error
pub mod Convert
pub mod Rpc
pub mod Calls
pub mod Connect
pub mod Agree
pub mod Loopback
pub mod Spec
pub mod Sent
pub mod Quiet
pub mod Classes
