-- ===== src/Models.antt =====
-- models.py: the shared vocabulary.
pub mod Enums
pub mod Records
pub mod Diff
