-- ===== src/Cqlite.antt =====
-- The CQLite reader, `CqliteClient` of backend/app/db/cqlite_client.py: its tables, its messages and
-- what it reports of a scan.
pub mod Message
pub mod Client
pub mod Figures
mod Stripped
mod Loops
mod Registered
mod Named
mod Tests
