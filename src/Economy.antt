-- ===== src/Economy.antt =====
-- app/economy/ledger.py and app/db/repositories/economy_repo.py.
pub mod Tables
pub mod Service
pub mod Rows
pub mod Audit
pub mod Create
pub mod Moves
pub mod Settle
pub mod Book
pub mod Runs
pub mod Replay
mod Tests
