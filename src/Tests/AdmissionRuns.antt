-- ===== src/Tests/AdmissionRuns.antt =====
-- Verification (src/modelguard/sdk.py) and admission (src/modelguard/admission.py) of an artifact
-- that a trusted key signed.
use modelguard.Tests.Samples.{digest_zero, mbom}
use modelguard.Base.{
  inr, String, ◌≡◌, ◌≢◌, ◌↔◌, refl, Bool, true, false, some, none, List, [], ◌∷◌, string_eq, nat_eq,
}
use modelguard.Base.Result.{ok, err}
use modelguard.Exceptions.{foreign, value_error}
use modelguard.Hashing.{ArtifactDigest}
use modelguard.Policy.Models.{PolicyDocument, is_allowed}
use modelguard.Policy.Engine.{evaluate, build_context}
use modelguard.Scanning.{run_scanners}
use modelguard.Signing.Envelope.{SignatureEnvelope}
use modelguard.Signing.Schemes.{
  Cryptography, valid, default_verifiers, decode_hex_strict, key_fingerprint,
}
use modelguard.Signing.TrustConfig.{TrustConfig, unconstrained, evaluate_trust, status_eq}
use modelguard.Signing.Verifier.{
  verify_envelope_signature, signed_scheme, verify_under, find_verifier, check_key_binding,
  check_artifact_digest, check_mbom_digest,
}
use modelguard.Sdk.Verification.{
  VerificationResult, RevocationSource, ModelGuard, World, attempt, hash_with, consult, conclude,
  check_artifact, verify, judge_signer,
}
use modelguard.Sdk.Verification.Verdict.{Clear, verify-allowed_iff}
use modelguard.Sdk.Verification.Returns.{Guarded, verify_returns}
use modelguard.Sdk.PolicyCheck.{Site, check_policy_detailed, scan_artifact}
use modelguard.Audit.Chain.{append_entry, append_on, settled, left_behind, with_line, link_behind}
use modelguard.Audit.Log.{to_record, record_event}
use modelguard.Admission.{AdmissionReason, AdmissionRequest, event_of, admit, judge}
use modelguard.Admission.Gate.{Passes, IsRecorded, checked, admit-admitted_iff}
use modelguard.Admission.Trail.{admit-verify_chain}
use modelguard.Audit.Chain.{
  ChainEntry, LogFile, completes, fails, part, read_all_entries, verify_chain, verify_entries,
}
use modelguard.Admission.Evidence.{Evidence, admitted_is_established}

-- Stand-ins for SHA-256, for the `cryptography` package and for `fnmatch`.
abbrev lenient : Cryptography
lenient = record { ed25519 = λ k s m. valid; ecdsa_p256 = λ k s m. valid }

abbrev any_name : String → String → Bool
any_name name pattern = true

abbrev summary : List AdmissionReason → String
summary reasons = "refused"

abbrev envelope : SignatureEnvelope
envelope = record {
  signature_type = "ed25519";
  payload = record {
    schema_version = "2";
    artifact_digest = "sha256:aa";
    mbom_digest = "sha256:0000000000000000000000000000000000000000000000000000000000000000";
    model_id = some "demo";
    version = some "1";
    signer_identity = "dev";
    signed_at = "now";
    signature_algorithm = some "ed25519";
    key_id = some "0000000000000000000000000000000000000000000000000000000000000000";
  };
  signature =
      "00112233445566778899aabbccddeeff00112233445566778899aabbccddeeff00112233445566778899aabbccddeeff00112233445566778899aabbccddeeff";
  public_key = "00112233445566778899aabbccddeeff00112233445566778899aabbccddeeff";
}

abbrev artifact : ArtifactDigest
artifact = record { algorithm = "sha256"; digest = "aa"; artifact_type = "file"; files = [] }

abbrev nothing_revoked : RevocationSource
nothing_revoked = record { is_revoked = λ model_id version. ok none }

abbrev trust : TrustConfig
trust = record {
  version = "1";
  keys = unconstrained "0000000000000000000000000000000000000000000000000000000000000000" ∷ [];
}

abbrev guard : ModelGuard
guard = record {
  allow_legacy_signatures = false;
  trust = some trust;
  registry = some nothing_revoked;
  hasher = none;
}

abbrev world : World
world = record {
  hash_artifact = λ path. ok artifact;
  read_mbom = λ path. ok mbom;
  read_envelope = λ path. ok envelope;
}

abbrev result : VerificationResult
result = record {
  allowed = true;
  artifact_digest = "sha256:aa";
  signature_valid = true;
  mbom_valid = true;
  revoked = false;
  reasons = [];
  digest_matches = true;
  signer_trusted = some true;
  revocation_checked = true;
  digest_from_cache = false;
  signature_algorithm = some "ed25519";
  signer_key_fingerprint = some "0000000000000000000000000000000000000000000000000000000000000000";
}

verifies : verify any_name digest_zero lenient guard world 5 "a" "m" "s" ≡ ok result
unfolding verify string_eq nat_eq status_eq attempt verify_envelope_signature signed_scheme
    verify_under find_verifier default_verifiers decode_hex_strict check_key_binding key_fingerprint
    hash_with check_artifact_digest consult conclude check_mbom_digest judge_signer evaluate_trust
    unconstrained check_artifact
verifies = refl

verify-allowed_iff_example :
    ((r : VerificationResult) × (verify any_name digest_zero lenient guard world 5 "a" "m" "s"
        ≡ ok r)
      × (r.allowed ≡ true))
    ↔ Clear any_name digest_zero lenient guard world 5 "a" mbom envelope
verify-allowed_iff_example =
    verify-allowed_iff any_name digest_zero lenient guard world 5 "a" "m" "s" mbom envelope refl
      refl

verify_returns_example :
    (r : VerificationResult) × (verify any_name digest_zero lenient guard world 5 "a" "m" "s"
      ≡ ok r)
unfolding hash_with consult Guarded string_eq
verify_returns_example =
    verify_returns lenient digest_zero any_name guard world 5 "a" "m" "s" mbom envelope (some none)
      refl refl tt refl

abbrev permissive : PolicyDocument
permissive = record { version = "1"; name = "none"; environment = none; rules = [] }

abbrev site : Site
site = record {
  world = world;
  is_file = λ path. true;
  parse_signature = λ path. ok envelope;
  scanners = λ path. [];
  load_policy = λ path. ok permissive;
}

abbrev request : AdmissionRequest
request = record {
  artifact_path = "a";
  mbom_path = "m";
  signature_path = "s";
  policy_path = "p";
  actor = "deployer";
  correlation_id = "c";
  evaluation_id = "e";
  timestamp = "now";
  clock = 5;
}

is_admitted :
    (admit summary digest_zero any_name lenient guard site completes (some none) request).0.admitted
    ≡ true
unfolding admit check_policy_detailed scan_artifact run_scanners build_context evaluate record_event
    append_entry append_on settled left_behind with_line link_behind verify string_eq nat_eq
    status_eq attempt verify_envelope_signature signed_scheme verify_under find_verifier
    default_verifiers decode_hex_strict check_key_binding key_fingerprint hash_with
    check_artifact_digest consult conclude check_mbom_digest judge_signer evaluate_trust
    unconstrained check_artifact is_allowed
is_admitted = refl

full_disk :
    (admit summary digest_zero any_name lenient guard site
      (fails (foreign "OSError") part)
      (some none)
      request).0.admitted
    ≡ false
unfolding admit record_event append_entry append_on settled left_behind with_line link_behind
full_disk = refl

admit-admitted_iff_example :
    ((admit summary digest_zero any_name lenient guard site completes
        (some none)
        request).0.admitted
      ≡ true)
    ↔ ((guard.trust ≢ none)
        × ((check : _) × (checked summary digest_zero any_name lenient guard site request
              ≡ ok check)
            × Passes check)
        × IsRecorded summary digest_zero completes
            (some none)
            request
            (judge summary digest_zero any_name lenient guard site request))
admit-admitted_iff_example =
    admit-admitted_iff summary digest_zero any_name lenient guard site request completes (some none)

admitted_is_established_example : Evidence any_name digest_zero lenient guard world 5 "a" "s"
admitted_is_established_example =
    admitted_is_established any_name digest_zero lenient guard summary site request completes
      (some none) is_admitted

admit-verify_chain_example :
    (e : ChainEntry) × (log' : LogFile) × (e.entry_record
      ≡ to_record (
          event_of summary "deployer" "now"
            (judge summary digest_zero any_name lenient guard site request)))
    × ((admit summary digest_zero any_name lenient guard site
          (fails (foreign "OSError") part)
          (some none)
          request).1
        ≡ some log')
    × (read_all_entries log' ≡ err value_error)
    × (verify_chain digest_zero log' ≡ err value_error)
unfolding read_all_entries verify_chain verify_entries
admit-verify_chain_example =
    admit-verify_chain summary digest_zero any_name lenient guard site
      (fails (foreign "OSError") part) none [] request refl refl (inr refl) tt
