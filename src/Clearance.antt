-- ===== src/Clearance.antt =====
-- The airspace clearance of backend/app/routes/transactions.py: a distributed semaphore on three
-- tables.
pub mod Ledger
pub mod Sound
pub mod Outcome
pub mod Reads
pub mod Released
pub mod Reset
pub mod Asks
pub mod Contend
pub mod Scene
pub mod Demo
pub mod Repeat
mod Tests
pub mod Step
pub mod State
pub mod Routes
