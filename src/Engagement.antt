-- ===== src/Engagement.antt =====
-- app/engagement and app/db/repositories/engagement_repo.py.
pub mod Profiles
pub mod Levels
pub mod Farming
pub mod Messages
pub mod Daily
pub mod Pace
pub mod Awards
pub mod Totals
mod Tests
