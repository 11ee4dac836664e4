-- ===== src/Window.antt =====
-- Which window the compare page may name, and what may be claimed of it: the last part of
-- backend/app/routes/query.py.
pub mod Bucket
pub mod Settled
pub mod Progress
pub mod Search
pub mod Claims
mod Tests
