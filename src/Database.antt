-- ===== src/Database.antt =====
-- packages/database/src/index.ts: calls that may throw, and `withTransaction` over a Postgres
-- connection (Database/Transaction). Column conversions are in Database/Columns.
pub mod Action
pub mod Columns
pub mod Transaction
pub mod Atomicity
pub mod Preserves
