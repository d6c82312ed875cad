-- ===== src/Audit.antt =====
-- src/modelguard/audit: the hash-chained log and the audit events kept in one.
pub mod Chain
pub mod Records
pub mod Log
