-- ===== src/Sink.antt =====
-- The Kafka sink of ingress/consumer/consumer.py: what it derives from an event, the alerts, and the
-- batches that it commits.
pub mod Tracker
pub mod Alerts
pub mod Zones
pub mod Cooldown
pub mod Verdicts
pub mod Rows
pub mod Batch
pub mod Stored
pub mod Delivery
pub mod Failure
pub mod Restart
mod Tests
