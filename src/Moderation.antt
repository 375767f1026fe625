-- ===== src/Moderation.antt =====
-- Moderation of chat messages: app/moderation and app/db/repositories/trust_repo.py.
pub mod Models
pub mod Policy
pub mod Trust
pub mod Order
pub mod Profiles
pub mod Scores
pub mod Spam
pub mod Floods
mod Tests
