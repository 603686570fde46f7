-- ===== src/Verification.antt =====
-- One-time codes for identities (internal/verification).
pub mod Model
pub mod Limiter
pub mod Repository
pub mod Service
mod Tests
mod ServiceTests
