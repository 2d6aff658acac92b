-- ===== src/Postgres.antt =====
-- internal/adapter/postgres: rows, statements and repositories.
pub mod Models
pub mod Statements
pub mod Repositories
