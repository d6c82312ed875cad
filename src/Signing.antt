-- ===== src/Signing.antt =====
-- src/modelguard/signing: trust roots, envelopes, verification and signing.
pub mod Trust
pub mod TrustConfig
pub mod Schemes
pub mod Envelope
pub mod Verifier
pub mod Signer
