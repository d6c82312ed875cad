-- ===== src/Sdk.antt =====
-- src/modelguard/sdk.py: the facade that combines the components.
pub mod Incidents
pub mod Verification
pub mod PolicyCheck
pub mod Registration
