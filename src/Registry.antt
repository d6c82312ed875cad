-- ===== src/Registry.antt =====
-- src/modelguard/registry: identifiers, records and the file-backed registry.
pub mod Identifiers
pub mod Models
pub mod Local
