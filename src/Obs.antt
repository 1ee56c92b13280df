-- ===== src/Obs.antt =====
-- obs/: what is kept and reported about calls and classifications.
pub mod Metrics
pub mod Summary
pub mod Prometheus
