-- ===== src/Detect.antt =====
-- detect/: the deterministic detector.
pub mod Infra
pub mod Window
pub mod History
pub mod Rates
pub mod Footprint
pub mod Results
pub mod Signals
pub mod Detector
pub mod Collect
