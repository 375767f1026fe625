-- ===== src/Quota.antt =====
-- The budget of YouTube API units: app/youtube/quota.py and app/youtube/quota_registry.py.
pub mod Registry
pub mod Manager
pub mod Events
pub mod Budget
pub mod Charges
mod Tests
