-- ===== src/Games.antt =====
-- app/games and app/db/repositories/game_repo.py.
pub mod Completed
pub mod Tables
pub mod Engine
pub mod Rows
pub mod Rounds
pub mod Winners
mod Tests
