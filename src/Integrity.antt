-- ===== src/Integrity.antt =====
-- app/services/integrity.py.
pub mod Audits
pub mod Reports
mod Tests
