-- ===== src/Console.antt =====
-- The SQL console of backend/app/routes/sql_console.py, over the client of
-- backend/app/db/accord_sql_client.py.
pub mod Accord
pub mod Routes
mod Reported
mod Tests
