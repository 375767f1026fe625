-- ===== src/Cache.antt =====
-- The cache of the application: app/cache, and the guards that stand on it.
pub mod Redis
pub mod View
pub mod RateLimiter
pub mod Windows
pub mod Locks
pub mod Dedupe
pub mod Values
mod Tests
