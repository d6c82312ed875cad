-- ===== src/Policy.antt =====
-- src/modelguard/policy: policy documents, their evaluation and their loader.
pub mod Models
pub mod Engine
pub mod Loader
