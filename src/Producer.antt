-- ===== src/Producer.antt =====
-- The pacing of ingress/producer/producer.py: how many events a turn of its loop sends, and of which
-- assets.
pub mod Pacing
pub mod Rate
pub mod Rounds
mod Tests
