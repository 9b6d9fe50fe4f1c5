-- ===== src/Queue.antt =====
-- crates/queue: the Postgres-backed job queue. The `jobs` table is a list of rows.
pub mod Job
pub mod Table
pub mod Client
pub mod Worker
mod Examples
