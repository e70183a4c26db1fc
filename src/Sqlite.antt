-- ===== src/Sqlite.antt =====
-- The package db/sqlite, as far as it turns plans and schema changes into SQL.
pub mod Identifiers
pub mod Compiler
pub mod Writes
pub mod Ddl
pub mod Like
pub mod Tokens
pub mod Statements
pub mod Examples
