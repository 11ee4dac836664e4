-- ===== src/Session.antt =====
-- The session timeline of backend/app/routes/transactions.py: exactly-once, in-order delivery on
-- three tables.
pub mod Store
pub mod Step
pub mod Timeline
pub mod Latency
pub mod Median
pub mod Demo
pub mod Repeat
mod Tests
