-- ===== src/Tests.antt =====
-- Runs on concrete data, and the theorems at concrete data.
mod Samples
mod PolicyRuns
mod LoaderRuns
mod CacheRuns
mod IncidentRuns
mod StorageRuns
mod ProvenanceRuns
mod HashingRuns
mod TrustRuns
mod AdmissionRuns
mod SignatureRuns
mod SigningRuns
mod AuditRuns
mod RegistryRuns
