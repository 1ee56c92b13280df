-- ===== src/Policy.antt =====
-- policy/: ownership, the quarantine decision and its records.
pub mod Owners
pub mod Ownership
pub mod Quarantine
pub mod Records
