-- ===== src/Flags.antt =====
-- app/services/feature_flags.py.
pub mod Service
pub mod Cascade
mod Tests
