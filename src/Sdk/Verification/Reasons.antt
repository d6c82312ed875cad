-- ===== src/Sdk/Verification/Reasons.antt =====
-- The reasons that `ModelGuard.verify` notes, against the flags of the result that it concludes with.
use modelguard.Base.{
  ℕ, String, ◌≡◌, refl, ◌∙◌, Bool, true, false, ◌&&◌, ◌⊎◌, inl, inr, Option, none, some, List, [],
  ◌∷◌, ◌++◌, map,
}
use modelguard.Base.{string_eq, is_some, is_empty, if◌then◌else◌, arith}
use modelguard.Exceptions.{Exception}
use modelguard.Registry.Models.{RevocationRecord}
use modelguard.Signing.Envelope.{SignatureEnvelope}
use modelguard.Signing.TrustConfig.{TrustConfig, TrustReason}
use modelguard.Signing.TrustConfig.Trusted.{evaluate_trust-reasons}
use modelguard.Signing.Verifier.{SignatureCheck}
use modelguard.Sdk.Verification.{
  VerifyReason, untrusted, Tampering, tamper_matches, tamper_reasons, signature_reasons, check_of,
  not_distrusted, query_of, judge_signer, conclude,
}

is_empty-append {ℓ} :
    {A : Type ℓ} (xs ys : List A) → is_empty (xs ++ ys) ≡ (is_empty xs && is_empty ys)
is_empty-append [] ys = refl
is_empty-append (x ∷ xs) ys = refl

is_empty-map {ℓ κ} :
    {A : Type ℓ} {B : Type κ} (f : A → B) (xs : List A) → is_empty (map f xs) ≡ is_empty xs
is_empty-map f [] = refl
is_empty-map f (x ∷ xs) = refl

module _ {ℓ κ} (A : Type ℓ) (B : Type κ) (f : A → B) where
  is_empty-noted :
      (trusted : Bool) (rs : List A)
      → is_empty rs ≡ trusted
      → is_empty (if trusted then [] else map f rs) ≡ trusted
  is_empty-noted true rs h = refl
  is_empty-noted false rs h = is_empty-map f rs ∙ h

is_empty-tamper_reasons :
    (tamper : Tampering ⊎ Exception) → is_empty (tamper_reasons tamper) ≡ tamper_matches tamper
is_empty-tamper_reasons (inl (t, _)) = ground arith
is_empty-tamper_reasons (inr e) = refl

module _ (fnmatch : String → String → Bool) where
  -- A signer who is not trusted is noted, but for one whose signature did not verify.
  is_empty-judge_signer :
      (trust : Option TrustConfig) (envelope : SignatureEnvelope) (clock : ℕ)
      (signature : SignatureCheck ⊎ Exception)
      → (is_empty (signature_reasons signature)
          && is_empty (judge_signer fnmatch trust envelope clock (check_of signature)).1)
        ≡ (is_some (check_of signature)
            && not_distrusted (judge_signer fnmatch trust envelope clock (check_of signature)).0)
  unfolding judge_signer
  is_empty-judge_signer none envelope clock (inl check) = refl
  is_empty-judge_signer none envelope clock (inr e) = refl
  is_empty-judge_signer (some trust) envelope clock (inr e) = refl
  is_empty-judge_signer (some trust) envelope clock (inl check) =
      let r =
        evaluate_trust-reasons fnmatch check.key_fingerprint trust
          (query_of check envelope clock) in
      is_empty-noted TrustReason VerifyReason untrusted _ _ r

  -- The reasons of a result are empty exactly when it allows.
  pub is_empty-reasons :
      (trust : Option TrustConfig) (envelope : SignatureEnvelope) (clock : ℕ)
      (signature : SignatureCheck ⊎ Exception) (mbom_valid : Bool) (tamper : Tampering ⊎ Exception)
      (revocation : Option (Option RevocationRecord))
      → is_empty
          (conclude fnmatch trust envelope clock signature mbom_valid tamper revocation).reasons
        ≡ (conclude fnmatch trust envelope clock signature mbom_valid tamper revocation).allowed
  unfolding conclude
  is_empty-reasons trust envelope clock signature mbom_valid tamper revocation =
      let j = is_empty-judge_signer trust envelope clock signature in
      let t = is_empty-tamper_reasons tamper in simp is_empty-append (ground (arith, j, t))
