-- ===== src/Server.antt =====
-- crates/server/src
pub mod Convert
pub mod RoundTrip
pub mod Service
pub mod Jobs
pub mod Limits
pub mod Metrics
pub mod Label
pub mod Start
pub mod Startup
pub mod Enqueue
pub mod Routes
