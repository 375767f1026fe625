-- ===== src/Streams/Sessions.antt =====
-- The table of app/db/models/stream_session.py. A time is a number of microseconds.
use ai_modrator.Common.{ℕ, String, Option}
use ai_modrator.Economy.Tables.{Uuid}
use ai_modrator.Streams.Transitions.{StreamStatus}

pub record StreamSession : Type 0 where
  pub id : Uuid
  pub creator_id : Uuid
  pub youtube_video_id : String
  pub youtube_live_chat_id : Option String
  pub status : StreamStatus
  pub started_at : Option ℕ
  pub ended_at : Option ℕ
  pub last_activity_at : Option ℕ
