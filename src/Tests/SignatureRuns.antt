-- ===== src/Tests/SignatureRuns.antt =====
-- Signature verification (src/modelguard/signing/verifier.py) with a verifier that accepts.
use modelguard.Base.{String, ◌≡◌, ◌↔◌, refl, true, false, some, [], ◌∷◌, string_eq, nat_eq}
use modelguard.Base.Bytes.{Bytes}
use modelguard.Base.Dict
use modelguard.Base.Result.{ok}
use modelguard.Signing.Envelope.{SignaturePayload, SignatureEnvelope}
use modelguard.Signing.Schemes.{Registry, decode_hex_strict, key_fingerprint}
use modelguard.Signing.Verifier.{
  SignatureCheck, verify_envelope_signature, verify_under, signed_scheme, find_verifier,
  check_key_binding,
}
use modelguard.Signing.Verifier.Soundness.{
  Established, verify_envelope_signature_iff, bound_payload_fixes_key,
}

-- A stand-in for SHA-256, and a scheme whose every signature is valid.
abbrev digest_zero : Bytes → String
digest_zero bytes = "0000000000000000000000000000000000000000000000000000000000000000"

abbrev lenient : Registry
lenient = ("test", record { algorithm = "test"; verify = λ key signature message. ok tt }) ∷ []

abbrev payload : SignaturePayload
payload = record {
  schema_version = "2";
  artifact_digest = "sha256:00";
  mbom_digest = "sha256:01";
  model_id = some "demo";
  version = some "1";
  signer_identity = "dev";
  signed_at = "now";
  signature_algorithm = some "test";
  key_id = some "0000000000000000000000000000000000000000000000000000000000000000";
}

abbrev envelope : SignatureEnvelope
envelope = record {
  signature_type = "test";
  payload = payload;
  signature = "0f";
  public_key = "a0";
}

abbrev other_key : SignatureEnvelope
other_key = record envelope { public_key = "a1ff" }

abbrev check : SignatureCheck
check = record {
  algorithm = "test";
  key_fingerprint = "0000000000000000000000000000000000000000000000000000000000000000";
  format_version = "2";
  key_bound = true;
}

verifies : verify_envelope_signature digest_zero envelope lenient false ≡ ok check
unfolding verify_envelope_signature verify_under signed_scheme find_verifier check_key_binding
    decode_hex_strict key_fingerprint string_eq nat_eq Dict.get
verifies = refl

verify_envelope_signature_iff_example :
    (verify_envelope_signature digest_zero envelope lenient false ≡ ok check)
    ↔ Established digest_zero envelope lenient false check
verify_envelope_signature_iff_example =
    verify_envelope_signature_iff digest_zero envelope lenient false check

bound_payload_fixes_key_example :
    (check.algorithm ≡ check.algorithm)
    × (check.key_fingerprint ≡ check.key_fingerprint)
    × (check.key_bound ≡ true)
bound_payload_fixes_key_example =
    bound_payload_fixes_key digest_zero envelope envelope lenient lenient false false check check
      refl verifies verifies refl
