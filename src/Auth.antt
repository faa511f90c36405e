-- ===== src/Auth.antt =====
-- internal/auth: who may log in, how often, and with what session.
pub mod RateLimit
pub mod Session
pub mod Oidc
pub mod Login
pub mod Accounts
