-- ===== src/Events.antt =====
-- app/events/bus.py.
pub mod Bus
pub mod Delivery
mod Tests
