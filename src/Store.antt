-- ===== src/Store.antt =====
-- app/store/service.py and app/db/repositories/store_repo.py.
pub mod Items
pub mod Service
pub mod Rows
pub mod Purchase
pub mod Outcome
pub mod Books
mod Tests
