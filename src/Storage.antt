-- ===== src/Storage.antt =====
-- src/modelguard/storage: blobs that are told by their SHA-256, and artifacts kept as such.
pub mod Blobs
pub mod Paths
pub mod Manifests
pub mod Transfer
