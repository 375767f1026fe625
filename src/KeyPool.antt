-- ===== src/KeyPool.antt =====
-- The pool of YouTube API keys: app/youtube/key_pool.py.
pub mod Pool
pub mod Choice
pub mod Cooldowns
mod Tests
