-- ===== src/Migrations.antt =====
-- The package migrations: each file of it is a module below.
pub mod Keys
pub mod Errors
pub mod Definitions
pub mod Graph
pub mod Planner
pub mod State
pub mod Operations
pub mod Executor
pub mod Reconstructor
pub mod History
