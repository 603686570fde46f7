-- ===== src/Device.antt =====
-- internal/device: the installations of an account.
pub mod Model
pub mod Table
pub mod Repository
pub mod Authorizing
pub mod Capacity
pub mod Bound
pub mod Sound
pub mod Ended
pub mod Lasting
pub mod Trace
pub mod Safety
pub mod Service
mod Tests
