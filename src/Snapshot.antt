-- ===== src/Snapshot.antt =====
-- The snapshots of the bulk reader, `SparkBulkClient` of backend/app/db/spark_client.py.
pub mod Bulk
pub mod Life
pub mod Reuse
pub mod Numbers
pub mod Backed
mod Tests
