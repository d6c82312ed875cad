-- ===== src/Signing/Signer.antt =====
-- src/modelguard/signing/signer.py and the protocol of providers.py: signing with any provider. What
-- a provider answers is a parameter: it may raise, and `none` stands for a value of a wrong type.
use mathlib.Core.Path.{subst}
use modelguard.Base.{arith, String, ◌<>◌, false, ◌&&◌, Option, none, some}
use modelguard.Base.{◌≡◌, refl, ltb, leb, length, ◌==◌, nat_eq, string_eq, if◌then◌else◌}
use modelguard.Base.Bytes.{Bytes, hex_text}
use modelguard.Base.Dict
use modelguard.Base.Result.{Result, ok, err, ◌>>=◌}
use modelguard.Exceptions.{
  Exception, is_model_guard_error, unsupported_signature_scheme, algorithm_unknown,
  signing_provider, identity_unusable, public_key_unusable, signature_unusable, self_check_failed,
  provider_failed,
}
use modelguard.Manifest.{Manifest}
use modelguard.Mbom.{MlBom}
use modelguard.Mbom.Canonical.{mbom_canonical_json}
use modelguard.Signing.Envelope.{SignaturePayload, SignatureEnvelope, canonical_json}
use modelguard.Signing.Schemes.{Registry, key_fingerprint}
use modelguard.Signing.Verifier.{SignatureCheck, verify_envelope_signature}

pub record SignerProvider : Type 0 where
  pub algorithm : Result Exception (Option String)
  pub identity : Result Exception (Option String)
  pub public_key : Result Exception (Option Bytes)
  pub sign : Bytes → Result Exception (Option Bytes)

-- `_provider_call`
unfoldable pub provider_call {ℓ} : {A : Type ℓ} → Result Exception A → Result Exception A
provider_call (ok a) = ok a
provider_call (err e) =
    if is_model_guard_error e then err e else err (signing_provider provider_failed)

unfoldable pub known_algorithm : Registry → Option String → Result Exception String
known_algorithm verifiers none = err (unsupported_signature_scheme (algorithm_unknown ""))
known_algorithm verifiers (some algorithm) =
    if Dict.has verifiers algorithm
    then ok algorithm
    else err (unsupported_signature_scheme (algorithm_unknown algorithm))

unfoldable pub usable_identity : Option String → Result Exception String
usable_identity none = err (signing_provider identity_unusable)
usable_identity (some identity) =
    if identity == "" then err (signing_provider identity_unusable) else ok identity

-- `isinstance(value, bytes) and 0 < len(value) <= 128`
unfoldable pub usable_bytes : Exception → Option Bytes → Result Exception Bytes
usable_bytes e none = err e
usable_bytes e (some value) =
    if ltb 0 (length value) && leb (length value) 128 then ok value else err e

module _ (sha256 : Bytes → String) where
  unfoldable pub payload_of : Manifest → MlBom → String → String → String → Bytes → SignaturePayload
  payload_of manifest mbom algorithm identity signed_at public_key = record {
    schema_version = "2";
    artifact_digest = manifest.algorithm <> ":" <> manifest.digest;
    mbom_digest = "sha256:" <> sha256 (mbom_canonical_json mbom);
    model_id = manifest.model_id;
    version = manifest.version;
    signer_identity = identity;
    signed_at = signed_at;
    signature_algorithm = some algorithm;
    key_id = some (key_fingerprint sha256 public_key);
  }

  -- The `try` statement at the end, by what the verification of the new envelope did.
  unfoldable pub hand_out :
      SignatureEnvelope → Result Exception SignatureCheck → Result Exception SignatureEnvelope
  hand_out envelope (ok check) = ok envelope
  hand_out envelope (err e) =
      if is_model_guard_error e then err (signing_provider self_check_failed) else err e

  unfoldable pub sign_with_provider :
      Manifest → MlBom → SignerProvider → Registry → String → Result Exception SignatureEnvelope
  unfolding payload_of hand_out
  sign_with_provider manifest mbom provider verifiers signed_at = do
    answered ← provider_call provider.algorithm
    algorithm ← known_algorithm verifiers answered
    named ← provider_call provider.identity
    key ← provider_call provider.public_key
    identity ← usable_identity named
    public_key ← usable_bytes (signing_provider public_key_unusable) key
    let payload = payload_of manifest mbom algorithm identity signed_at public_key
    signed ← provider_call (provider.sign (canonical_json payload))
    signature ← usable_bytes (signing_provider signature_unusable) signed
    let envelope : SignatureEnvelope = record {
      signature_type = algorithm;
      payload = payload;
      signature = hex_text signature;
      public_key = hex_text public_key;
    }
    hand_out envelope (verify_envelope_signature sha256 envelope verifiers false)

-- What holds of a value that is returned.
unfoldable Returned {ℓ} : {A : Type ℓ} → (A → Type 0) → Result Exception A → Type 0
Returned P (ok a) = P a
Returned P (err e) = Unit

Returned->>= {ℓ κ} :
    {A : Type ℓ} {B : Type κ} (P : B → Type 0) (m : Result Exception A) (f : A → Result Exception B)
    → ((a : A) → Returned P (f a))
    → Returned P (m >>= f)
unfolding Returned
Returned->>= P (ok a) f h = h a
Returned->>= P (err e) f h = tt

module _ (sha256 : Bytes → String) (manifest : Manifest) (mbom : MlBom) (verifiers : Registry) where
  -- An envelope that verifies with legacy signatures refused, and is bound to manifest and ML-BOM.
  pub record IsGenuine (envelope : SignatureEnvelope) : Type 0 where
    pub check : SignatureCheck
    pub verified : verify_envelope_signature sha256 envelope verifiers false ≡ ok check
    pub artifact : envelope.payload.artifact_digest ≡ (manifest.algorithm <> ":" <> manifest.digest)
    pub bill : envelope.payload.mbom_digest ≡ ("sha256:" <> sha256 (mbom_canonical_json mbom))
    pub model : envelope.payload.model_id ≡ manifest.model_id
    pub model_version : envelope.payload.version ≡ manifest.version
    pub label : envelope.payload.signature_algorithm ≡ some envelope.signature_type
    pub bound : envelope.payload.schema_version ≡ "2"

  handed_out :
      (envelope : SignatureEnvelope) (r : Result Exception SignatureCheck)
      → ((check : SignatureCheck) → r ≡ ok check → IsGenuine envelope)
      → Returned IsGenuine (hand_out sha256 envelope r)
  unfolding Returned hand_out
  handed_out envelope (ok check) h = h check refl
  handed_out envelope (err e) h = ground arith

  sign_with_provider-Returned :
      (provider : SignerProvider) (signed_at : String)
      → Returned IsGenuine (sign_with_provider sha256 manifest mbom provider verifiers signed_at)
  unfolding sign_with_provider payload_of
  sign_with_provider-Returned provider signed_at =
      Returned->>= _ (provider_call provider.algorithm) _ λ answered.
        Returned->>= _ (known_algorithm verifiers answered) _ λ algorithm.
          Returned->>= _ (provider_call provider.identity) _ λ named.
            Returned->>= _ (provider_call provider.public_key) _ λ key.
              Returned->>= _ (usable_identity named) _ λ identity.
                Returned->>= _ (usable_bytes (signing_provider public_key_unusable) key) _
                  λ public_key. Returned->>= _ _ _ λ signed.
                    Returned->>= _ (usable_bytes (signing_provider signature_unusable) signed) _
                      λ signature. handed_out _ _ λ check verified. record {
                        check = check;
                        verified = verified;
                        artifact = refl;
                        bill = refl;
                        model = refl;
                        model_version = refl;
                        label = refl;
                        bound = refl;
                      }

  -- An envelope that signing hands out verifies under the same verifiers with legacy signatures
  -- refused, names the digests of the manifest and of the ML-BOM, the manifest's model and version,
  -- and the algorithm that the envelope is labelled with, and is of the format that binds the key;
  -- whatever the provider answers.
  pub sign_with_provider-IsGenuine :
      (provider : SignerProvider) (signed_at : String) (envelope : SignatureEnvelope)
      → sign_with_provider sha256 manifest mbom provider verifiers signed_at ≡ ok envelope
      → IsGenuine envelope
  unfolding Returned
  sign_with_provider-IsGenuine provider signed_at envelope h =
      subst (Returned IsGenuine) h (sign_with_provider-Returned provider signed_at)
