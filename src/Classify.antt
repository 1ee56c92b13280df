-- ===== src/Classify.antt =====
-- classify/: the guarded call of a language model.
pub mod Schema
pub mod Context
pub mod Pricing
pub mod Cache
pub mod Classifier
pub mod Client
