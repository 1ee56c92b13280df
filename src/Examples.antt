-- ===== src/Examples.antt =====
-- The theorems at concrete inputs.
pub mod Sample
pub mod Texts
pub mod Detecting
pub mod Storing
pub mod Deciding
pub mod Identifying
pub mod Classifying
pub mod Ingesting
pub mod Reporting
