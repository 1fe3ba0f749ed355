-- ===== src/Auth.antt =====
-- internal/auth: passwords, the throttle, the credential cache, Basic authentication and sessions.
pub mod Base64
pub mod Throttle
pub mod Cache
pub mod Basic
pub mod Session
pub mod Password
