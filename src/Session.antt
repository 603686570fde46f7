-- ===== src/Session.antt =====
-- Sessions with rotating refresh tokens (internal/session).
pub mod Table
pub mod Repository
pub mod Access
pub mod Trace
pub mod Service
pub mod Authenticator
mod Tests
mod TokenTests
