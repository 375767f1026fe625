-- ===== src/Resilience.antt =====
-- What guards remote calls: app/utils/circuit_breaker.py and app/utils/retry.py.
pub mod Breaker
pub mod Trips
pub mod Retry
mod Tests
