-- ===== src/Sdk/Verification/Verdict.antt =====
-- When `ModelGuard.verify` allows an artifact: an independent statement of the conditions, and the
-- proofs that the result is allowed exactly when they hold, and that it says why when it is not.
use mathlib.Core.Path.{subst}
use mathlib.Core.Option.{some-injective}
use modelguard.Base.{
  ℕ, String, ◌≡◌, refl, ap, ◌∙◌, ◌↔◌, Bool, true, false, ◌⊎◌, inl, inr, Option, none, some, ◌<>◌,
}
use modelguard.Base.{string_eq, is_empty, arith}
use modelguard.Base.Bytes.{Bytes}
use modelguard.Base.Result.{Result, ok, err, bind_elim, ran_all, ok-injective}
use modelguard.Exceptions.{Exception}
use modelguard.Mbom.{MlBom}
use modelguard.Registry.Models.{RevocationRecord}
use modelguard.Signing.Envelope.{SignatureEnvelope}
use modelguard.Signing.Schemes.{Cryptography, default_verifiers}
use modelguard.Signing.TrustConfig.{TrustConfig, evaluate_trust}
use modelguard.Signing.Verifier.{
  SignatureCheck, verify_envelope_signature, check_artifact_digest, check_mbom_digest,
}
use modelguard.Sdk.Verification.{
  VerificationResult, CachedHashResult, ModelGuard, World, attempt, hash_with, consult, Tampering,
  is_withdrawn, not_distrusted, query_of, judge_signer, conclude, check_artifact, examine, verify,
}
use modelguard.Sdk.Verification.Reasons.{is_empty-reasons}

pub attempt-inl {ℓ} :
    {A : Type ℓ} (r : Result Exception A) {a : A} → attempt r ≡ ok (inl a) → r ≡ ok a
unfolding attempt
attempt-inl (ok a) h = cc
attempt-inl (err e) h = absurd (ground arith)

module _ (fnmatch : String → String → Bool) where
  -- A trust configuration, if there is one, trusts the key that verified.
  abbrev pub Accepts : Option TrustConfig → SignatureEnvelope → ℕ → SignatureCheck → Type 0
  Accepts configured envelope clock check =
      (trust : TrustConfig)
      → configured ≡ some trust
      → (evaluate_trust fnmatch check.key_fingerprint trust (query_of check envelope clock)).trusted
        ≡ true

  judge_signer-Accepts :
      (trust : Option TrustConfig) (envelope : SignatureEnvelope) (clock : ℕ)
      (check : SignatureCheck)
      → (not_distrusted (judge_signer fnmatch trust envelope clock (some check)).0 ≡ true)
        ↔ Accepts trust envelope clock check
  unfolding judge_signer
  judge_signer-Accepts none envelope clock check = (λ h trust e. cc, λ h. refl)
  judge_signer-Accepts (some trust) envelope clock check =
      (λ h t e. rw (← some-injective trust t e) h, λ h. h trust refl)

  module _ (sha256 : Bytes → String) (crypto : Cryptography) where
    -- What `verify` establishes of an artifact that it allows, each condition by the component that
    -- decides it: the signature verifies; the ML-BOM is the signed one; the bytes on disk hash to
    -- the signed digest; a trust configuration, if there is one, trusts the key that verified; and a
    -- registry, if there is one and the payload names a version, says that it is not revoked.
    pub record Clear (guard : ModelGuard) (world : World) (clock : ℕ) (path : String) (mbom : MlBom)
        (envelope : SignatureEnvelope) : Type 0 where
      pub check : SignatureCheck
      pub verified :
          verify_envelope_signature sha256 envelope
            (default_verifiers crypto)
            guard.allow_legacy_signatures
          ≡ ok check
      pub mbom_signed : check_mbom_digest sha256 mbom envelope ≡ true
      pub outcome : CachedHashResult
      pub hashed : hash_with guard.hasher world.hash_artifact path ≡ ok outcome
      pub artifact_signed :
          outcome.digest.algorithm <> ":" <> outcome.digest.digest
          ≡ envelope.payload.artifact_digest
      pub trusted : Accepts guard.trust envelope clock check
      pub answer : Option (Option RevocationRecord)
      pub asked :
          consult guard.registry envelope.payload.model_id envelope.payload.version ≡ ok answer
      pub not_withdrawn : is_withdrawn answer ≡ false

    module _ (guard : ModelGuard) (world : World) (clock : ℕ) (path : String) where
      pub examined :
          (mbom : MlBom) (envelope : SignatureEnvelope) {result : VerificationResult}
          → examine fnmatch sha256 crypto guard world clock path mbom envelope ≡ ok result
          → (signature : SignatureCheck ⊎ Exception) × (tamper : Tampering ⊎ Exception)
            × (revocation : Option (Option RevocationRecord)) × (attempt (
                  verify_envelope_signature sha256 envelope
                    (default_verifiers crypto)
                    guard.allow_legacy_signatures)
                ≡ ok signature)
            × (attempt (check_artifact fnmatch sha256 crypto guard world path envelope) ≡ ok tamper)
            × (consult guard.registry envelope.payload.model_id envelope.payload.version
                ≡ ok revocation)
            × (conclude fnmatch guard.trust envelope clock signature
                  (check_mbom_digest sha256 mbom envelope)
                  tamper
                  revocation
                ≡ result)
      unfolding examine
      examined mbom envelope h =
          ran_all _ _ _
            (λ signature tamper revocation.
              conclude fnmatch guard.trust envelope clock signature
                (check_mbom_digest sha256 mbom envelope) tamper revocation)
            h

      -- The artifact's bytes hash to the digest that the payload names.
      abbrev pub IsSigned : SignatureEnvelope → CachedHashResult → Type 0
      IsSigned envelope outcome =
          outcome.digest.algorithm <> ":" <> outcome.digest.digest
          ≡ envelope.payload.artifact_digest

      pub check_artifact-IsSigned :
          (envelope : SignatureEnvelope) (t : Tampering)
          → check_artifact fnmatch sha256 crypto guard world path envelope ≡ ok t
          → t.0.matches ≡ true
          → (outcome : CachedHashResult) × (hash_with guard.hasher world.hash_artifact path
              ≡ ok outcome)
            × IsSigned envelope outcome
      unfolding check_artifact check_artifact_digest
      check_artifact-IsSigned envelope t h matches =
          bind_elim (hash_with guard.hasher world.hash_artifact path) _ h λ outcome hashed k. (
            outcome,
            hashed,
            let same = ap (λ (t : Tampering). t.0.matches) (ok-injective k) in
                ground (arith, same, matches),
          )

      IsSigned-check_artifact :
          (envelope : SignatureEnvelope) (outcome : CachedHashResult)
          → hash_with guard.hasher world.hash_artifact path ≡ ok outcome
          → IsSigned envelope outcome
          → (t : Tampering) × (check_artifact fnmatch sha256 crypto guard world path envelope
              ≡ ok t)
            × (t.0.matches ≡ true)
      unfolding check_artifact check_artifact_digest
      IsSigned-check_artifact envelope outcome hashed signed =
          rw hashed (_, refl, ground (arith, signed))

      -- A result gives no reason exactly when it allows the artifact.
      pub verify-reasons :
          (mbom_path signature_path : String) (result : VerificationResult)
          → verify fnmatch sha256 crypto guard world clock path mbom_path signature_path ≡ ok result
          → is_empty result.reasons ≡ result.allowed
      unfolding verify
      verify-reasons mbom_path signature_path result h =
          bind_elim (world.read_mbom mbom_path) _ h λ mbom _ h1.
            bind_elim (world.read_envelope signature_path) _ h1 λ envelope _ h2.
              let (signature, tamper, revocation, _, _, _, e) = examined mbom envelope h2 in
              subst (λ (r : VerificationResult). is_empty r.reasons ≡ r.allowed) e
                (is_empty-reasons fnmatch guard.trust envelope clock signature _ tamper revocation)

      conclude-allowed :
          (envelope : SignatureEnvelope) (signature : SignatureCheck ⊎ Exception)
          (mbom_valid : Bool) (tamper : Tampering ⊎ Exception)
          (revocation : Option (Option RevocationRecord))
          → (conclude fnmatch guard.trust envelope clock signature mbom_valid tamper
              revocation).allowed
            ≡ true
          → (check : SignatureCheck) × (signature ≡ inl check)
            × (mbom_valid ≡ true)
            × ((t : Tampering) × (tamper ≡ inl t) × (t.0.matches ≡ true))
            × (is_withdrawn revocation ≡ false)
            × Accepts guard.trust envelope clock check
      unfolding conclude
      conclude-allowed envelope (inl check) mbom_valid (inl t) revocation h =
          let accepted : not_distrusted
                (judge_signer fnmatch guard.trust envelope clock (some check)).0
              ≡ true =
            ground (arith, h) in
          (
            check,
            refl,
            ground (arith, h),
            (t, refl, ground (arith, h)),
            ground (arith, h),
            (judge_signer-Accepts guard.trust envelope clock check).0 accepted,
          )
      conclude-allowed envelope (inr e) mbom_valid tamper revocation h = absurd (ground (arith, h))
      conclude-allowed envelope (inl check) mbom_valid (inr e) revocation h =
          absurd (ground (arith, h))

      conclude-allows :
          (envelope : SignatureEnvelope) (check : SignatureCheck) (t : Tampering)
          (revocation : Option (Option RevocationRecord))
          → t.0.matches ≡ true
          → is_withdrawn revocation ≡ false
          → Accepts guard.trust envelope clock check
          → (conclude fnmatch guard.trust envelope clock
              (inl check)
              true
              (inl t)
              revocation).allowed
            ≡ true
      unfolding conclude
      conclude-allows envelope check t revocation matches clear accepts =
          let accepted = (judge_signer-Accepts guard.trust envelope clock check).1 accepts in
          ground (arith, matches, clear, accepted)

      examine-Clear :
          (mbom : MlBom) (envelope : SignatureEnvelope)
          → (result : VerificationResult) × (examine fnmatch sha256 crypto guard world clock path
                mbom envelope
              ≡ ok result)
            × (result.allowed ≡ true)
          → Clear guard world clock path mbom envelope
      examine-Clear mbom envelope (result, h, allowed) =
          let (signature, tamper, revocation, verified, tested, asked, concluded) =
            examined mbom envelope h in
          let (check, valid, mbom_signed, (t, kept, matches), clear, trusted) =
            conclude-allowed envelope signature _ tamper revocation
              (ap VerificationResult.allowed concluded ∙ allowed) in
          let (outcome, hashed, artifact_signed) =
            check_artifact-IsSigned envelope t (attempt-inl _ (tested ∙ ap ok kept)) matches in
          record {
            check = check;
            verified = attempt-inl _ (verified ∙ ap ok valid);
            mbom_signed = mbom_signed;
            outcome = outcome;
            hashed = hashed;
            artifact_signed = artifact_signed;
            trusted = trusted;
            answer = revocation;
            asked = asked;
            not_withdrawn = clear;
          }

      Clear-examine :
          (mbom : MlBom) (envelope : SignatureEnvelope)
          → Clear guard world clock path mbom envelope
          → (result : VerificationResult) × (examine fnmatch sha256 crypto guard world clock path
                mbom envelope
              ≡ ok result)
            × (result.allowed ≡ true)
      unfolding examine attempt
      Clear-examine mbom envelope c =
          let (t, tested, matches) =
            IsSigned-check_artifact envelope c.outcome c.hashed c.artifact_signed in
          rw (c.verified, tested, c.asked, c.mbom_signed)
            (_, refl, conclude-allows envelope c.check t c.answer matches c.not_withdrawn c.trusted)

      -- Where the ML-BOM and the envelope can be read, `verify` returns a result that allows the
      -- artifact exactly when the conditions of `Clear` hold of them.
      pub verify-allowed_iff :
          (mbom_path signature_path : String) (mbom : MlBom) (envelope : SignatureEnvelope)
          → world.read_mbom mbom_path ≡ ok mbom
          → world.read_envelope signature_path ≡ ok envelope
          → ((result : VerificationResult) × (verify fnmatch sha256 crypto guard world clock path
                  mbom_path signature_path
                ≡ ok result)
              × (result.allowed ≡ true))
            ↔ Clear guard world clock path mbom envelope
      unfolding verify
      verify-allowed_iff mbom_path signature_path mbom envelope m e =
          rw (m, e) (examine-Clear mbom envelope, Clear-examine mbom envelope)
