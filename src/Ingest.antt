-- ===== src/Ingest.antt =====
-- ingest/: reading reports and diffs.
pub mod Ranges
pub mod Headers
pub mod Hunks
pub mod Diff
pub mod Elements
pub mod Cases
pub mod Junit
pub mod Files
pub mod Pipeline
