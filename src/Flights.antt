-- ===== src/Flights.antt =====
-- app/ai/coalescer.py.
pub mod Coalescer
pub mod Single
mod Tests
