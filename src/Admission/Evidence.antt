-- ===== src/Admission/Evidence.antt =====
-- What holds of an artifact that `admit` admitted, by the components that decided it.
use modelguard.Base.{
  ℕ, String, ◌≡◌, refl, ap, ◌∙◌, ◌⊎◌, inl, inr, Bool, true, Option, none, some, List, ◌<>◌,
}
use modelguard.Base.{arith}
use modelguard.Base.Bytes.{Bytes}
use modelguard.Base.Result.{ok, bind_elim, ok-injective}
use modelguard.Exceptions.{Exception}
use modelguard.Audit.Chain.{LogFile, Disk}
use modelguard.Registry.Models.{RevocationRecord}
use modelguard.Signing.Envelope.{SignatureEnvelope}
use modelguard.Signing.Schemes.{Cryptography, default_verifiers}
use modelguard.Signing.TrustConfig.{TrustConfig, TrustedKeyEntry, evaluate_trust}
use modelguard.Signing.TrustConfig.Trusted.{Trusts, entry_for, evaluate_trust-trusted_iff}
use modelguard.Signing.Verifier.{SignatureCheck, verify_envelope_signature}
use modelguard.Sdk.Verification.{
  VerificationResult, CachedHashResult, ModelGuard, World, Tampering, hash_with, judge_signer,
  conclude, query_of, check_of, verify,
}
use modelguard.Sdk.Verification.Verdict.{attempt-inl, examined, check_artifact-IsSigned}
use modelguard.Sdk.PolicyCheck.{PolicyCheck, Site, scan_artifact, check_policy_detailed}
use modelguard.Admission.{AdmissionReason, AdmissionRequest, admit}
use modelguard.Admission.Gate.{admit-admitted_iff, checked}

module _ (fnmatch : String → String → Bool) where
  judge_signer-trusted :
      (trust : Option TrustConfig) (envelope : SignatureEnvelope) (clock : ℕ)
      (check : Option SignatureCheck)
      → (judge_signer fnmatch trust envelope clock check).0 ≡ some true
      → (t : TrustConfig) × (c : SignatureCheck) × (trust ≡ some t)
        × (check ≡ some c)
        × ((evaluate_trust fnmatch c.key_fingerprint t (query_of c envelope clock)).trusted ≡ true)
  unfolding judge_signer
  judge_signer-trusted none envelope clock check h = cc
  judge_signer-trusted (some t) envelope clock none h = absurd (ground (arith, h))
  judge_signer-trusted (some t) envelope clock (some c) h = (t, c, refl, refl, ground (arith, h))

  conclude-facts :
      (trust : Option TrustConfig) (envelope : SignatureEnvelope) (clock : ℕ)
      (signature : SignatureCheck ⊎ Exception) (mbom_valid : Bool) (tamper : Tampering ⊎ Exception)
      (revocation : Option (Option RevocationRecord)) (result : VerificationResult)
      → conclude fnmatch trust envelope clock signature mbom_valid tamper revocation ≡ result
      → result.digest_matches ≡ true
      → result.signer_trusted ≡ some true
      → ((judge_signer fnmatch trust envelope clock (check_of signature)).0 ≡ some true)
        × ((t : Tampering) × (tamper ≡ inl t) × (t.0.matches ≡ true))
  unfolding conclude
  conclude-facts trust envelope clock signature mbom_valid (inl t) revocation result e m s = (
    ap VerificationResult.signer_trusted e ∙ s,
    (t, refl, ap VerificationResult.digest_matches e ∙ m),
  )
  conclude-facts trust envelope clock signature mbom_valid (inr x) revocation result e m s =
      absurd (let f = ap VerificationResult.digest_matches e ∙ m in ground (arith, f))

  module _ (sha256 : Bytes → String) (crypto : Cryptography) (guard : ModelGuard) where
    -- The evidence behind an admission.
    pub record Evidence (world : World) (clock : ℕ) (path signature_path : String) : Type 0 where
      pub envelope : SignatureEnvelope
      pub read : world.read_envelope signature_path ≡ ok envelope
      pub check : SignatureCheck
      pub verified :
          verify_envelope_signature sha256 envelope
            (default_verifiers crypto)
            guard.allow_legacy_signatures
          ≡ ok check
      pub outcome : CachedHashResult
      pub hashed : hash_with guard.hasher world.hash_artifact path ≡ ok outcome
      pub artifact_signed :
          outcome.digest.algorithm <> ":" <> outcome.digest.digest
          ≡ envelope.payload.artifact_digest
      pub trust : TrustConfig
      pub configured : guard.trust ≡ some trust
      pub key : TrustedKeyEntry
      pub listed : entry_for trust.keys check.key_fingerprint ≡ some key
      pub trusted : Trusts fnmatch key (query_of check envelope clock)

    verify-Evidence :
        (world : World) (clock : ℕ) (path mbom_path signature_path : String)
        (result : VerificationResult)
        → verify fnmatch sha256 crypto guard world clock path mbom_path signature_path ≡ ok result
        → result.digest_matches ≡ true
        → result.signer_trusted ≡ some true
        → Evidence world clock path signature_path
    unfolding verify
    verify-Evidence world clock path mbom_path signature_path result h matches signer =
        bind_elim (world.read_mbom mbom_path) _ h λ mbom _ h1.
          bind_elim (world.read_envelope signature_path) _ h1 λ envelope read h2.
            let (signature, tamper, revocation, verified, tested, _, e) =
              examined fnmatch sha256 crypto guard world clock path mbom envelope h2 in
            let (judged, (t, kept, m)) =
              conclude-facts guard.trust envelope clock signature _ tamper revocation result e
                matches signer in
            let (trust, check, configured, found, trusted) =
              judge_signer-trusted guard.trust envelope clock (check_of signature) judged in
            let (outcome, hashed, signed) =
              check_artifact-IsSigned fnmatch sha256 crypto guard world clock path envelope t
                (attempt-inl _ (tested ∙ ap ok kept)) m in
            let (key, listed, conditions) =
              (evaluate_trust-trusted_iff fnmatch check.key_fingerprint trust
                  (query_of check envelope clock)).0
                trusted in
            record {
              envelope = envelope;
              read = read;
              check = check;
              verified = attempt-inl _ (verified ∙ ap ok (check_of-some signature check found));
              outcome = outcome;
              hashed = hashed;
              artifact_signed = signed;
              trust = trust;
              configured = configured;
              key = key;
              listed = listed;
              trusted = conditions;
            }
      where
        check_of-some :
            (s : SignatureCheck ⊎ Exception) (c : SignatureCheck) → check_of s ≡ some c → s ≡ inl c
        check_of-some (inl d) c e = ground (arith, e)
        check_of-some (inr x) c e = cc

    module _ (summary : List AdmissionReason → String) (site : Site) (r : AdmissionRequest) where
      checked-verify :
          (check : PolicyCheck)
          → checked summary sha256 fnmatch crypto guard site r ≡ ok check
          → verify fnmatch sha256 crypto guard site.world r.clock r.artifact_path r.mbom_path
              r.signature_path
            ≡ ok check.verification
      unfolding check_policy_detailed
      checked-verify check h = bind_elim (site.world.read_mbom r.mbom_path) _ h λ mbom _ h1.
          bind_elim
            (verify fnmatch sha256 crypto guard site.world r.clock r.artifact_path r.mbom_path
              r.signature_path)
            _ h1
            λ verification v h2.
              bind_elim (site.parse_signature r.signature_path) _ h2 λ envelope _ h3.
                bind_elim (scan_artifact site r.artifact_path mbom verification envelope) _ h3
                  λ report _ h4.
                    bind_elim (site.load_policy r.policy_path) _ h4
                      λ policy _ h5. v ∙ ap ok (ap PolicyCheck.verification (ok-injective h5))

      -- Whatever the policy file says, an artifact is admitted only if the envelope's signature
      -- verifies, the configured hasher gives the artifact the digest that is signed, and the trust
      -- configuration has an entry for the key that verified, which trusts it now, for the claimed
      -- identity and model.
      pub admitted_is_established :
          (disk : Disk) (requested : Option LogFile)
          → (admit summary sha256 fnmatch crypto guard site disk requested r).0.admitted ≡ true
          → Evidence site.world r.clock r.artifact_path r.signature_path
      admitted_is_established disk requested h =
          let (_, (check, returned, (_, matches, signer)), _) =
            (admit-admitted_iff summary sha256 fnmatch crypto guard site r disk requested).0 h in
          verify-Evidence site.world r.clock r.artifact_path r.mbom_path r.signature_path
            check.verification (checked-verify check returned) matches signer
