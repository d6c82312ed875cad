-- ===== src/Sdk/PolicyCheck.antt =====
-- `ModelGuard.check_policy_detailed` of src/modelguard/sdk.py: verification, scan and policy. The
-- scanners of an artifact, the policy loader and the second reading of the signature are fields of
-- `Site`, beside the `World` that `verify` reads.
use modelguard.Base.{ℕ, String, Bool, true, none, some, List, []}
use modelguard.Base.{if◌then◌else◌, split_last}
use modelguard.Base.Bytes.{Bytes}
use modelguard.Base.Result.{Result, ok, ◌>>=◌}
use modelguard.Exceptions.{Exception}
use modelguard.Manifest.{Manifest, file, directory}
use modelguard.Mbom.{MlBom}
use modelguard.Policy.Models.{PolicyDocument, PolicyDecisionResult}
use modelguard.Policy.Engine.{Facts, build_context, evaluate}
use modelguard.Scanning.{Scanner, ScanReport, Severity, run_scanners, count}
use modelguard.Signing.Envelope.{SignatureEnvelope}
use modelguard.Signing.Schemes.{Cryptography}
use modelguard.Sdk.Verification.{VerificationResult, ModelGuard, World, verify}

pub record PolicyCheck : Type 0 where
  pub decision : PolicyDecisionResult
  pub verification : VerificationResult
  pub scan_report : ScanReport

pub record Site : Type 0 where
  pub world : World
  pub is_file : String → Bool
  pub parse_signature : String → Result Exception SignatureEnvelope
  pub scanners : String → List Scanner
  pub load_policy : String → Result Exception PolicyDocument

-- The manifest that is made up from the payload.
unfoldable pub rebuild_manifest : Bool → VerificationResult → SignatureEnvelope → Manifest
rebuild_manifest is_file verification envelope = record {
  schema_version = "1";
  artifact_type = if is_file then file else directory;
  algorithm = "sha256";
  digest = split_last b':' verification.artifact_digest;
  model_id = envelope.payload.model_id;
  artifact_name = none;
  version = envelope.payload.version;
  format = none;
  framework = none;
  license = none;
  creator = none;
  source_location = none;
  files = [];
}

-- The facts of a verification and a scan, as the policy engine takes them.
unfoldable pub facts_of : VerificationResult → ScanReport → Facts
unfolding count
facts_of verification scan_report = record {
  signature_valid = verification.signature_valid;
  mbom_valid = verification.mbom_valid;
  revoked = verification.revoked;
  artifact_digest_matches = verification.digest_matches;
  scan_performed = true;
  critical_finding_count = count scan_report Severity.critical;
  high_finding_count = count scan_report Severity.high;
  signer_trusted = verification.signer_trusted;
}

-- The scan, bound to the digest that `verify` computed if that is the artifact's.
unfoldable pub scan_artifact :
    Site → String → MlBom → VerificationResult → SignatureEnvelope → Result Exception ScanReport
unfolding rebuild_manifest
scan_artifact site artifact_path mbom verification envelope =
    run_scanners (site.world.hash_artifact artifact_path)
      (some (rebuild_manifest (site.is_file artifact_path) verification envelope)) (some mbom)
      (site.scanners artifact_path)
      (if verification.digest_matches then some verification.artifact_digest else none)

module _ (fnmatch : String → String → Bool) (sha256 : Bytes → String) (crypto : Cryptography) where
  -- The decision carries a fresh identifier and the time, `evaluation_id` and `timestamp`.
  unfoldable pub check_policy_detailed :
      ModelGuard
      → Site
      → ℕ
      → String
      → String
      → String
      → String
      → String
      → String
      → Result Exception PolicyCheck
  unfolding facts_of rebuild_manifest
  check_policy_detailed guard site clock evaluation_id timestamp artifact_path mbom_path
        signature_path policy_path =
      do
        mbom ← site.world.read_mbom mbom_path
        verification ←
            verify fnmatch sha256 crypto guard site.world clock artifact_path mbom_path
              signature_path
        envelope ← site.parse_signature signature_path
        scan_report ← scan_artifact site artifact_path mbom verification envelope
        policy ← site.load_policy policy_path
        ok (record {
          decision =
              evaluate
                (build_context (rebuild_manifest (site.is_file artifact_path) verification envelope)
                  mbom (facts_of verification scan_report))
                policy evaluation_id timestamp;
          verification = verification;
          scan_report = scan_report;
        })
