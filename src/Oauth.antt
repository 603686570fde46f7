-- ===== src/Oauth.antt =====
-- The desktop client's authorization codes with PKCE (internal/oauth).
pub mod Model
pub mod Repository
pub mod Platform
pub mod Service
pub mod Login
mod Tests
mod LoginTests
