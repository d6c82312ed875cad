-- ===== src/Sdk/Verification.antt =====
-- `ModelGuard.verify` of src/modelguard/sdk.py: signature, ML-BOM, artifact, trust and revocation,
-- combined into one result. What the paths hold is a `World`.
pub mod Reasons
pub mod Verdict
pub mod Returns
use modelguard.Base.{
  ℕ, String, Bool, true, false, not, ◌&&◌, ◌⊎◌, inl, inr, Option, none, some, List, [], ◌∷◌, ◌++◌,
  map,
}
use modelguard.Base.{◌==◌, option_eq, text_truth, is_some, is_empty, if◌then◌else◌, TextMethods, Eq}
use modelguard.Base.Bytes.{Bytes}
use modelguard.Base.Result.{Result, ok, err, ◌>>=◌}
use modelguard.Exceptions.{Exception, is_model_guard_error}
use modelguard.Hashing.{ArtifactDigest}
use modelguard.Mbom.{MlBom}
use modelguard.Registry.Models.{RevocationRecord}
use modelguard.Signing.Envelope.{SignatureEnvelope}
use modelguard.Signing.Schemes.{Cryptography, default_verifiers}
use modelguard.Signing.TrustConfig.{
  TrustConfig, TrustReason, TrustQuery, evaluate_trust, merge_trust_configs,
  build_minimal_trust_config,
}
use modelguard.Signing.Verifier.{
  SignatureCheck, TamperCheckResult, verify_envelope_signature, check_artifact_digest,
  check_mbom_digest,
}

pub data VerifyReason : Type 0 where
  raised : Exception → VerifyReason
  mbom_differs : VerifyReason
  artifact_differs : String → String → VerifyReason
  untrusted : TrustReason → VerifyReason
  withdrawn : RevocationRecord → VerifyReason

pub record VerificationResult : Type 0 where
  pub allowed : Bool
  pub artifact_digest : String
  pub signature_valid : Bool
  pub mbom_valid : Bool
  pub revoked : Bool
  pub reasons : List VerifyReason
  pub digest_matches : Bool
  pub signer_trusted : Option Bool
  pub revocation_checked : Bool
  pub digest_from_cache : Bool
  pub signature_algorithm : Option String
  pub signer_key_fingerprint : Option String

-- What a verification uses of the `Registry` protocol.
pub record RevocationSource : Type 0 where
  pub is_revoked : String → String → Result Exception (Option RevocationRecord)

-- `CachedHashResult` of the cached hasher
pub record CachedHashResult : Type 0 where
  pub digest : ArtifactDigest
  pub from_cache : Bool

pub record ModelGuard : Type 0 where
  pub allow_legacy_signatures : Bool
  pub trust : Option TrustConfig
  pub registry : Option RevocationSource
  pub hasher : Option (String → Result Exception CachedHashResult)

-- What reading a path gives.
pub record World : Type 0 where
  pub hash_artifact : String → Result Exception ArtifactDigest
  pub read_mbom : String → Result Exception MlBom
  pub read_envelope : String → Result Exception SignatureEnvelope

abbrev optional_list {ℓ} : {A : Type ℓ} → Option A → List A
optional_list none = []
optional_list (some a) = a ∷ []

-- The trust configuration that `__init__` puts together.
unfoldable pub configure_trust :
    TextMethods → Option (List String) → Option TrustConfig → Result Exception (Option TrustConfig)
configure_trust py none none = ok none
configure_trust py none (some trust_config) = do
  merged ← merge_trust_configs (trust_config ∷ [])
  ok (some merged)
configure_trust py (some fingerprints) trust_config = do
  minimal ← build_minimal_trust_config py fingerprints
  merged ← merge_trust_configs (minimal ∷ optional_list trust_config)
  ok (some merged)

-- `try: ... except ModelGuardError`: what was returned, or what was caught.
unfoldable pub attempt {ℓ} : {A : Type ℓ} → Result Exception A → Result Exception (A ⊎ Exception)
attempt (ok a) = ok (inl a)
attempt (err e) = if is_model_guard_error e then ok (inr e) else err e

-- `_hash`
unfoldable pub hash_with :
    Option (String → Result Exception CachedHashResult)
    → (String → Result Exception ArtifactDigest)
    → String
    → Result Exception CachedHashResult
hash_with none hash_artifact path = do
  digest ← hash_artifact path
  ok (record { digest = digest; from_cache = false })
hash_with (some hash) hash_artifact path = hash path

-- `none` where no registry is asked; else its answer.
unfoldable pub consult :
    Option RevocationSource
    → Option String
    → Option String
    → Result Exception (Option (Option RevocationRecord))
unfolding text_truth
consult (some source) (some model_id) (some version) =
    let asked = (do answer ← source.is_revoked model_id version; ok (some answer)) in
    if text_truth model_id && text_truth version then asked else ok none
consult _ _ _ = ok none

-- A value of the `try` statements, and the reasons noted there.
abbrev pub signature_reasons : SignatureCheck ⊎ Exception → List VerifyReason
signature_reasons (inl _) = []
signature_reasons (inr e) = raised e ∷ []

abbrev pub Tampering : Type 0
Tampering = TamperCheckResult × Bool

abbrev pub tamper_reasons : Tampering ⊎ Exception → List VerifyReason
tamper_reasons (inl (t, _)) =
    if t.matches then [] else artifact_differs t.signed_digest t.current_digest ∷ []
tamper_reasons (inr e) = raised e ∷ []

abbrev pub tamper_matches : Tampering ⊎ Exception → Bool
tamper_matches (inl (t, _)) = t.matches
tamper_matches (inr _) = false

abbrev pub revocation_reasons : Option (Option RevocationRecord) → List VerifyReason
revocation_reasons (some (some r)) = withdrawn r ∷ []
revocation_reasons _ = []

abbrev pub is_withdrawn : Option (Option RevocationRecord) → Bool
is_withdrawn (some (some _)) = true
is_withdrawn _ = false

abbrev pub check_of : SignatureCheck ⊎ Exception → Option SignatureCheck
check_of (inl check) = some check
check_of (inr _) = none

abbrev field_of {ℓ κ} : {A : Type ℓ} {B : Type κ} → (A → B) → Option A → Option B
field_of f none = none
field_of f (some a) = some (f a)

-- `signer_trusted is not False`
abbrev pub not_distrusted : Option Bool → Bool
not_distrusted none = true
not_distrusted (some trusted) = trusted

unfoldable pub query_of : SignatureCheck → SignatureEnvelope → ℕ → TrustQuery
query_of check envelope clock = record {
  algorithm = check.algorithm;
  claimed_signer_identity = some envelope.payload.signer_identity;
  model_id = envelope.payload.model_id;
  clock = clock;
}

module _ (fnmatch : String → String → Bool) where
  -- `signer_trusted`, and the reasons noted with it.
  unfoldable pub judge_signer :
      Option TrustConfig
      → SignatureEnvelope
      → ℕ
      → Option SignatureCheck
      → Option Bool × List VerifyReason
  unfolding query_of
  judge_signer none envelope clock check = (none, [])
  judge_signer (some trust) envelope clock none = (some false, [])
  judge_signer (some trust) envelope clock (some check) =
      let e = evaluate_trust fnmatch check.key_fingerprint trust (query_of check envelope clock) in
      (some e.trusted, if e.trusted then [] else map untrusted e.reasons)

  -- The result that is returned, from the values that the checks before it gave.
  unfoldable pub conclude :
      Option TrustConfig
      → SignatureEnvelope
      → ℕ
      → SignatureCheck ⊎ Exception
      → Bool
      → Tampering ⊎ Exception
      → Option (Option RevocationRecord)
      → VerificationResult
  conclude trust envelope clock signature mbom_valid tamper revocation =
      let check = check_of signature in
      let (signer_trusted, signer_reasons) = judge_signer trust envelope clock check in
      let allowed =
        is_some check && mbom_valid && tamper_matches tamper && not_distrusted signer_trusted in
      record {
        allowed = if is_withdrawn revocation then false else allowed;
        artifact_digest = elim tamper [
          | inl (t, _) ↦ t.current_digest
          | inr _ ↦ envelope.payload.artifact_digest
        ];
        signature_valid = is_some check;
        mbom_valid = mbom_valid;
        revoked = is_withdrawn revocation;
        reasons =
            signature_reasons signature
            ++ (if mbom_valid then [] else mbom_differs ∷ [])
            ++ tamper_reasons tamper
            ++ signer_reasons
            ++ revocation_reasons revocation;
        digest_matches = tamper_matches tamper;
        signer_trusted = signer_trusted;
        revocation_checked = is_some revocation;
        digest_from_cache = elim tamper [ inl (_, from_cache) ↦ from_cache | inr _ ↦ false ];
        signature_algorithm = field_of SignatureCheck.algorithm check;
        signer_key_fingerprint = field_of SignatureCheck.key_fingerprint check;
      }

  module _ (sha256 : Bytes → String) (crypto : Cryptography) where
    unfoldable pub check_artifact :
        ModelGuard → World → String → SignatureEnvelope → Result Exception Tampering
    check_artifact guard world path envelope = do
      outcome ← hash_with guard.hasher world.hash_artifact path
      tamper ← check_artifact_digest sha256 envelope (ok outcome.digest)
      ok (tamper, outcome.from_cache)

    -- The body of `verify`, once the ML-BOM and the envelope are read.
    unfoldable pub examine :
        ModelGuard
        → World
        → ℕ
        → String
        → MlBom
        → SignatureEnvelope
        → Result Exception VerificationResult
    examine guard world clock artifact_path mbom envelope = do
      signature ← attempt (
          verify_envelope_signature sha256 envelope (default_verifiers crypto)
            guard.allow_legacy_signatures)
      tamper ← attempt (check_artifact guard world artifact_path envelope)
      revocation ← consult guard.registry envelope.payload.model_id envelope.payload.version
      ok (
          conclude guard.trust envelope clock signature (check_mbom_digest sha256 mbom envelope)
            tamper revocation)

    unfoldable pub verify :
        ModelGuard → World → ℕ → String → String → String → Result Exception VerificationResult
    unfolding examine
    verify guard world clock artifact_path mbom_path signature_path = do
      mbom ← world.read_mbom mbom_path
      envelope ← world.read_envelope signature_path
      examine guard world clock artifact_path mbom envelope
