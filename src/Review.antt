-- ===== src/Review.antt =====
-- Human review of moderation: app/moderation/hitl/service.py, app/moderation/actions.py and
-- app/db/repositories/review_repo.py.
pub mod Actions
pub mod Tickets
pub mod Service
pub mod Resolution
mod Tests
