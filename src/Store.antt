-- ===== src/Store.antt =====
-- internal/postgres: the tables of Work execution and the statements that read and write them.
-- `Tables` has the rows, the other modules the statements of internal/postgres/dbsqlc, each with
-- the tables explicit.
pub mod Tables
pub mod Claims
pub mod Attempts
pub mod Retries
pub mod Works
