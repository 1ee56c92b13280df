-- ===== src/Store.antt =====
-- store/: the run store.
pub mod Execution
pub mod Aliases
pub mod Reads
pub mod Tables
pub mod Rows
pub mod Writes
pub mod Lookups
