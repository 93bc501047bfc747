-- ===== src/Security.antt =====
-- backend/security: roles and permissions, API keys, authentication, rate limiting.
pub mod Roles
pub mod Accounts
pub mod ApiKeys
pub mod Identity
pub mod RateLimiter
mod Examples
