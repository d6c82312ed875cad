-- ===== src/Provenance.antt =====
-- src/modelguard/provenance: lineage events in a hash-chained log, and the queries over them.
pub mod Models
pub mod Store
pub mod Walk
pub mod Graph
