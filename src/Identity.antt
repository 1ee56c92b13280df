-- ===== src/Identity.antt =====
-- identity/: fingerprints, similarity and rename detection.
pub mod Similarity
pub mod Fingerprint
pub mod Alias
pub mod Reconcile
