-- ===== src/Compare.antt =====
-- The comparison of the query engines of backend/app/routes/query.py: which engines a request asks for,
-- and the one run at a time with its lock, its cancel flag and its stream of lines.
pub mod Engines
pub mod Answers
pub mod Shape
pub mod Chosen
pub mod Requests
pub mod Runs
pub mod Exclusive
pub mod Stream
pub mod Abandoned
pub mod Leaving
mod Tests
