-- ===== src/Desktop.antt =====
-- internal/desktopcontrol: the heartbeat of a desktop, and the health checks it is asked for.
pub mod Model
pub mod Table
pub mod Repository
pub mod Advance
pub mod Listing
pub mod Lifecycle
pub mod Changes
pub mod History
pub mod Trace
pub mod Once
pub mod Queueing
pub mod Status
pub mod Service
mod Tests
