-- ===== src/Secure.antt =====
-- internal/secure: what the other packages share.
pub mod Base64
pub mod Compact
