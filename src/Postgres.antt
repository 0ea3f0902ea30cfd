-- ===== src/Postgres.antt =====
-- internal/postgres: the tables, the repository of polls, snapshots and results.
pub mod Tables
pub mod Calls
pub mod Results
pub mod Reads
pub mod Polls
pub mod History
pub mod Migrations
