-- ===== src/Auth.antt =====
-- crates/auth: the sessions behind the refresh tokens.
pub mod Session
pub mod Jwt
pub mod Totp
pub mod Examples
