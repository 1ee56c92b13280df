-- ===== src/Report.antt =====
-- report/: the renderings of detections.
pub mod Findings
pub mod Markdown
