-- ===== src/Lib.antt =====
-- modelguard: signing, verifying and admitting machine-learning artifacts.
--
-- The program hashes an artifact, binds its digest and that of its bill of materials (the ML-BOM)
-- into a signed envelope, and later decides whether the artifact may be used: a verification checks
-- the signature, the ML-BOM, the bytes on disk, the trust in the key and the revocation of the
-- version; a policy is evaluated over the facts; an admission gate combines all of it, failing closed,
-- and writes its decision to a hash-chained audit log. The files here model, by component:
--
--   Exceptions      src/modelguard/exceptions.py: an exception is a value, `err e` a raised one;
--                   `is_model_guard_error` is `isinstance(e, ModelGuardError)`.
--   Manifest, Mbom  src/modelguard/manifest/models.py, src/modelguard/mbom/models.py: the records,
--                   and the canonical JSON bytes of an ML-BOM; Manifest.Builder
--                   (src/modelguard/manifest/builder.py), Mbom.Generator (src/modelguard/mbom/generator.py).
--   Hashing         src/modelguard/hashing/digest.py: `hash_file`, `hash_directory`, `hash_artifact`
--                   over a tree of nodes that stands for the file system, where a
--                   directory may be one that cannot be listed.
--   Policy          src/modelguard/policy: Models (models.py), Engine (engine.py), with `build_context`,
--                   the eight checks and `evaluate`, and Loader (loader.py), from the value of a YAML
--                   document. A `Message` constructor stands for each text of a rule's result.
--   Signing         src/modelguard/signing: Schemes (schemes.py), Envelope (envelope.py), Verifier
--                   (verifier.py), Trust (trust.py), TrustConfig (trust_config.py), Signer (signer.py).
--   Audit           src/modelguard/audit: Chain (chain.py), a log file as its lines and what follows
--                   the last line break, with writes that fail half way (`Disk`), and Log (log.py), its
--                   audit events; Records reads the records of such a log as events.
--   Registry        src/modelguard/registry: Identifiers, Models and Local, the file-backed registry; its
--                   state is the record files by name, the digest index and the revocation log, and an
--                   operation returns the state after it.
--   Provenance      src/modelguard/provenance: Models (models.py), Store (store.py) and Graph (graph.py);
--                   Walk is the loop that the lineage queries share.
--   Cache           src/modelguard/cache/digest_cache.py: fingerprints, and in Hasher `CachedHasher`,
--                   whose call meets a snapshot of the path before, while and after it hashes.
--   Storage         src/modelguard/storage: Blobs (_io.py, protocol.py, local.py), Paths and Manifests
--                   (what a download acts on) and Transfer (transfer.py), over any `BlobStore`; that the
--                   local one meets its contract is `local_store-IsVerifying`.
--   Scanning        src/modelguard/scanning/models.py and runner.py: reports and the run of scanners.
--   Sdk             src/modelguard/sdk.py: Verification (`ModelGuard.verify`) and PolicyCheck
--                   (`check_policy_detailed`), on a `World` and a `Site` that say what reading a path
--                   gives, Registration (`register`), and Incidents
--                   (`find_deployments_using_revoked_model`) over a `Registry`.
--   Admission       src/modelguard/admission.py: `admit` and `_finish`.
--   Tests           runs on concrete data.
--
-- Base holds what the others share: Python's equality and truth tests, lists measured by native
-- numbers, dictionaries in insertion order, results, byte strings, hexadecimal, UTF-8 and the compact
-- JSON of `json.dumps` with sorted keys. JsonRecord reads the members of a record of a log.
--
-- SHA-256, the `cryptography` package, `fnmatch`, the character tables behind `strip`, `lower` and
-- NFC, the parsers of JSON and YAML, the conversions of pydantic, the clock and fresh identifiers are
-- parameters. Times are numbers of one clock. Decimal numbers in JSON are written with a fuel of the
-- number itself, which is more than its digits; a lineage walk runs on one round more than there are
-- events, as a round takes an identifier off the stack and puts on only targets of events that were not
-- met; the chunks of a file are read with a fuel of its length, as a chunk has a byte at least.
-- Everything else recurs on its data.
--
-- Not modelled: the command line, the KMS and HSM providers and key files, the PostgreSQL registry
-- with its migrations, the S3 blob store, the single scanners, failures of the operating system in
-- transfers and in registering a record, and concurrent writers of one file.
pub mod Base
pub mod Exceptions
pub mod JsonRecord
pub mod Manifest
pub mod Mbom
pub mod Hashing
pub mod Policy
pub mod Signing
pub mod Audit
pub mod Registry
pub mod Provenance
pub mod Cache
pub mod Storage
pub mod Scanning
pub mod Sdk
pub mod Admission
pub mod Tests
