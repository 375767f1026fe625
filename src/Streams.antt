-- ===== src/Streams.antt =====
-- Stream sessions: app/db/models/stream_session.py.
pub mod Transitions
pub mod Sessions
pub mod Reach
mod Tests
