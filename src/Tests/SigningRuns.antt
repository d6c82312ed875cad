-- ===== src/Tests/SigningRuns.antt =====
-- Signing with a provider (src/modelguard/signing/signer.py), and a scan by three scanners, of which
-- one raises (src/modelguard/scanning/runner.py).
use modelguard.Tests.Samples.{digest_zero, manifest, mbom}
use modelguard.Base.{String, ◌≡◌, refl, some, none, List, [], ◌∷◌, string_eq, nat_eq}
use modelguard.Base.Bytes.{hex_text}
use modelguard.Base.Dict
use modelguard.Base.Result.{ok, err}
use modelguard.Exceptions.{os_error}
use modelguard.Scanning.{Severity, Confidence, Finding, ScanReport, Scanner, run_scanners}
use modelguard.Scanning.Completeness.{all_found, last_status, run_scanners-report}
use modelguard.Signing.Envelope.{SignatureEnvelope}
use modelguard.Signing.Schemes.{Registry, decode_hex_strict, key_fingerprint}
use modelguard.Signing.Verifier.{
  verify_envelope_signature, verify_under, signed_scheme, find_verifier, check_key_binding,
}
use modelguard.Signing.Signer.{
  SignerProvider, provider_call, known_algorithm, usable_identity, usable_bytes, sign_with_provider,
  IsGenuine, sign_with_provider-IsGenuine,
}

abbrev lenient : Registry
lenient = ("test", record { algorithm = "test"; verify = λ key signature message. ok tt }) ∷ []

abbrev provider : SignerProvider
provider = record {
  algorithm = ok (some "test");
  identity = ok (some "dev");
  public_key = ok (some (160 ∷ []));
  sign = λ message. ok (some (15 ∷ []));
}

abbrev envelope : SignatureEnvelope
envelope = record {
  signature_type = "test";
  payload = record {
    schema_version = "2";
    artifact_digest = "sha256:aa";
    mbom_digest = "sha256:0000000000000000000000000000000000000000000000000000000000000000";
    model_id = some "demo";
    version = some "1";
    signer_identity = "dev";
    signed_at = "now";
    signature_algorithm = some "test";
    key_id = some "0000000000000000000000000000000000000000000000000000000000000000";
  };
  signature = "0f";
  public_key = "a0";
}

signs : sign_with_provider digest_zero manifest mbom provider lenient "now" ≡ ok envelope
unfolding sign_with_provider provider_call known_algorithm usable_identity usable_bytes hex_text
    verify_envelope_signature verify_under signed_scheme find_verifier check_key_binding
    decode_hex_strict key_fingerprint string_eq nat_eq Dict.get Dict.has
signs = refl

sign_with_provider-IsGenuine_example : IsGenuine digest_zero manifest mbom lenient envelope
sign_with_provider-IsGenuine_example =
    sign_with_provider-IsGenuine digest_zero manifest mbom lenient provider "now" envelope signs

abbrev unsafe_pickle : Finding
unsafe_pickle = record {
  scanner = "unsafe";
  category = "unsafe_serialization";
  severity = Severity.high;
  confidence = Confidence.medium;
  component = "model.pkl";
  message = "pickle";
  remediation = none;
  evidence = none;
}

abbrev scanners : List Scanner
scanners =
    record { name = "unsafe"; scan = λ m b. ok (unsafe_pickle ∷ []) }
    ∷ record { name = "secrets"; scan = λ m b. err os_error }
    ∷ record { name = "metadata"; scan = λ m b. ok [] }
    ∷ []

abbrev report : ScanReport
report = record {
  artifact_digest = "sha256:aa";
  scanner_statuses = ("unsafe", "ok") ∷ ("secrets", "error") ∷ ("metadata", "ok") ∷ [];
  scanner_errors = ("secrets", os_error) ∷ [];
  findings = unsafe_pickle ∷ [];
}

scans : run_scanners (err os_error) none none scanners (some "sha256:aa") ≡ ok report
unfolding run_scanners string_eq
scans = refl

run_scanners-report_example :
    (report.findings ≡ all_found none none scanners)
    × ((name : String)
        → Dict.get report.scanner_statuses name ≡ last_status none none none scanners name)
run_scanners-report_example =
    run_scanners-report none none (err os_error) scanners (some "sha256:aa") report scans
