-- ===== src/Signing/Verifier.antt =====
-- src/modelguard/signing/verifier.py: whether a signature verifies, and whether the artifact and the
-- ML-BOM are those that were signed. `sha256` gives the hexadecimal digest.

pub mod Soundness
use modelguard.Base.{ℕ, String, ◌<>◌, Bool, true, false, not, ◌&&◌, ◌||◌, Option, none, some, ◌==◌}
use modelguard.Base.{string_eq, is_some, if◌then◌else◌}
use modelguard.Base.Bytes.{Bytes}
use modelguard.Base.Dict
use modelguard.Base.Result.{Result, ok, err, ◌>>=◌, ◌>>◌, require}
use modelguard.Hashing.{ArtifactDigest}
use modelguard.Mbom.{MlBom}
use modelguard.Mbom.Canonical.{mbom_canonical_json}
use modelguard.Exceptions.{
  Exception, signature_invalid, unsupported_signature_scheme, digest_mismatch, legacy_refused,
  legacy_carries_binding, legacy_type_unknown, bound_lacks_binding, label_altered, version_unknown,
  algorithm_unknown, key_substituted, mbom_unbound,
}
use modelguard.Signing.Envelope.{SignaturePayload, SignatureEnvelope, canonical_json}
use modelguard.Signing.Schemes.{SignatureVerifier, Registry, key_fingerprint, decode_hex_strict}

pub record TamperCheckResult : Type 0 where
  pub current_digest : String
  pub signed_digest : String
  pub matches : Bool

pub record SignatureCheck : Type 0 where
  pub algorithm : String
  pub key_fingerprint : String
  pub format_version : String
  pub key_bound : Bool

-- The algorithm that the signed data fix, and the key that they commit to.
abbrev pub Scheme : Type 0
Scheme = String × Option String

unfoldable pub legacy_scheme : SignatureEnvelope → Bool → Result Exception Scheme
legacy_scheme envelope allow_legacy_v1 =
    if not allow_legacy_v1
    then err (unsupported_signature_scheme legacy_refused)
    else if is_some envelope.payload.signature_algorithm || is_some envelope.payload.key_id
    then err (signature_invalid legacy_carries_binding)
    else if not (envelope.signature_type == "ed25519-local")
    then err (unsupported_signature_scheme (legacy_type_unknown envelope.signature_type))
    else ok ("ed25519", none)

abbrev bound_scheme_of : String → Option String → Option String → Result Exception Scheme
bound_scheme_of label (some algorithm) (some key_id) =
    if not (label == algorithm)
    then err (signature_invalid (label_altered label algorithm))
    else ok (algorithm, some key_id)
bound_scheme_of label _ _ = err (signature_invalid bound_lacks_binding)

unfoldable pub bound_scheme : SignatureEnvelope → Result Exception Scheme
bound_scheme envelope =
    bound_scheme_of envelope.signature_type envelope.payload.signature_algorithm
      envelope.payload.key_id

-- The first half of `verify_envelope_signature`: no byte of a key or signature is read yet.
unfoldable pub signed_scheme : SignatureEnvelope → Bool → Result Exception Scheme
unfolding legacy_scheme bound_scheme
signed_scheme envelope allow_legacy_v1 =
    if envelope.payload.schema_version == "1"
    then legacy_scheme envelope allow_legacy_v1
    else if envelope.payload.schema_version == "2"
    then bound_scheme envelope
    else err (unsupported_signature_scheme (version_unknown envelope.payload.schema_version))

unfoldable pub find_verifier : Registry → String → Result Exception SignatureVerifier
unfolding Dict.get
find_verifier verifiers algorithm = elim (Dict.get verifiers algorithm) [
  | none ↦ err (unsupported_signature_scheme (algorithm_unknown algorithm))
  | some verifier ↦ ok verifier
]

unfoldable pub check_key_binding : Option String → String → Result Exception (Unit {0})
check_key_binding none fingerprint = ok tt
check_key_binding (some claimed) fingerprint =
    if not (claimed == fingerprint)
    then err (signature_invalid (key_substituted claimed fingerprint))
    else ok tt

module _ (sha256 : Bytes → String) where
  -- The second half.
  unfoldable pub verify_under :
      SignatureEnvelope → Registry → Scheme → Result Exception SignatureCheck
  verify_under envelope verifiers (algorithm, claimed_key_id) = do
    verifier ← find_verifier verifiers algorithm
    public_key ← decode_hex_strict envelope.public_key "public_key" 128
    signature ← decode_hex_strict envelope.signature "signature" 128
    check_key_binding claimed_key_id (key_fingerprint sha256 public_key)
    verifier.verify public_key signature (canonical_json envelope.payload)
    ok (record {
      algorithm = algorithm;
      key_fingerprint = key_fingerprint sha256 public_key;
      format_version = envelope.payload.schema_version;
      key_bound = is_some claimed_key_id;
    })

  unfoldable pub verify_envelope_signature :
      SignatureEnvelope → Registry → Bool → Result Exception SignatureCheck
  verify_envelope_signature envelope verifiers allow_legacy_v1 = do
    scheme ← signed_scheme envelope allow_legacy_v1
    verify_under envelope verifiers scheme

  unfoldable pub check_signature_bytes :
      SignatureEnvelope → Registry → Bool → Result Exception (Unit {0})
  check_signature_bytes envelope verifiers allow_legacy_v1 = do
    _ ← verify_envelope_signature envelope verifiers allow_legacy_v1
    ok tt

  -- `check_artifact_digest`, with the outcome of the hasher at the artifact's path.
  unfoldable pub check_artifact_digest :
      SignatureEnvelope → Result Exception ArtifactDigest → Result Exception TamperCheckResult
  check_artifact_digest envelope hashed = do
    current ← hashed
    let current_ref = current.algorithm <> ":" <> current.digest
    ok (record {
      current_digest = current_ref;
      signed_digest = envelope.payload.artifact_digest;
      matches = current_ref == envelope.payload.artifact_digest;
    })

  unfoldable pub check_mbom_digest : MlBom → SignatureEnvelope → Bool
  check_mbom_digest mbom envelope =
      ("sha256:" <> sha256 (mbom_canonical_json mbom)) == envelope.payload.mbom_digest

  -- `verify_artifact`
  unfoldable pub verify_artifact :
      Registry
      → Result Exception ArtifactDigest
      → MlBom
      → SignatureEnvelope
      → Result Exception TamperCheckResult
  verify_artifact verifiers hashed mbom envelope = do
    check_signature_bytes envelope verifiers true
    require (check_mbom_digest mbom envelope) (signature_invalid mbom_unbound)
    tamper_result ← check_artifact_digest envelope hashed
    require tamper_result.matches
        (digest_mismatch tamper_result.signed_digest tamper_result.current_digest)
    ok tamper_result
