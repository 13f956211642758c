-- ===== src/Service.antt =====
-- The server's logic outside the workflow engine and the jobs (crates/service/src).
mod Keys
pub mod Teams
pub mod RateLimiter
pub mod Enforcer
mod Tests
