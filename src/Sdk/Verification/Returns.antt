-- ===== src/Sdk/Verification/Returns.antt =====
-- When `ModelGuard.verify` returns rather than raises: a failed check of the signature or of the
-- artifact is caught and becomes a reason.
use mathlib.Core.Path.{subst}
use mathlib.Core.Option.{some-injective}
use modelguard.Base.{
  All, ltb, leb, length, code_count, all_codes, is_lower_hex, not, ◌*◌, ◌||◌, ◌&&◌, nat_eq, ℕ,
  String, ◌≡◌, refl, Bool, true, false, ◌⊎◌, inl, inr, Option, some, ◌∷◌, [],
}
use modelguard.Base.{◌==◌, string_eq, if◌then◌else◌, arith, Bool-cases}
use modelguard.Base.Bytes.{Bytes, codes}
use modelguard.Base.Dict
use modelguard.Base.Result.{Result, ok, err, ◌>>=◌}
use modelguard.Exceptions.{Exception, is_model_guard_error}
use modelguard.Mbom.{MlBom}
use modelguard.Registry.Models.{RevocationRecord}
use modelguard.Signing.Envelope.{SignatureEnvelope}
use modelguard.Signing.Schemes.{
  Cryptography, SignatureVerifier, default_verifiers, decode_hex_strict, is_odd_length,
  starts_with_byte, ed25519_verifier, ecdsa_p256_verifier, answered, Answer,
}
use modelguard.Signing.Verifier.{
  verify_envelope_signature, verify_under, signed_scheme, legacy_scheme, bound_scheme,
  find_verifier, check_key_binding, check_artifact_digest,
}
use modelguard.Sdk.Verification.{
  VerificationResult, ModelGuard, World, attempt, hash_with, consult, check_artifact, examine,
  verify,
}

-- What is raised, if anything is, is a `ModelGuardError`.
unfoldable pub Guarded {ℓ} : {A : Type ℓ} → Result Exception A → Type 0
Guarded (ok a) = Unit
Guarded (err e) = is_model_guard_error e ≡ true

Guarded-err {ℓ} :
    (A : Type ℓ) (e : Exception) → is_model_guard_error e ≡ true → Guarded {A = A} (err e)
unfolding Guarded
Guarded-err A e h = h

module _ {ℓ} {A : Type ℓ} where
  Guarded-ok : (a : A) → Guarded (ok a)
  unfolding Guarded
  Guarded-ok a = tt

  Guarded-if :
      (test : Bool) (r s : Result Exception A)
      → Guarded r
      → Guarded s
      → Guarded (if test then r else s)
  Guarded-if true r s g h = g
  Guarded-if false r s g h = h

  attempt-Guarded : (m : Result Exception A) → Guarded m → (x : A ⊎ Exception) × (attempt m ≡ ok x)
  unfolding attempt Guarded
  attempt-Guarded (ok a) g = (inl a, refl)
  attempt-Guarded (err e) g = (inr e, rw g)

  Guarded->>= {κ} :
      {B : Type κ} (m : Result Exception A) (f : A → Result Exception B)
      → Guarded m
      → ((a : A) → m ≡ ok a → Guarded (f a))
      → Guarded (m >>= f)
  unfolding Guarded
  Guarded->>= (ok a) f g h = h a refl
  Guarded->>= (err e) f g h = g

signed_scheme-Guarded :
    (envelope : SignatureEnvelope) (allow : Bool) → Guarded (signed_scheme envelope allow)
unfolding Guarded signed_scheme legacy_scheme bound_scheme is_model_guard_error
signed_scheme-Guarded envelope allow = ground arith

decode_hex_strict-Guarded :
    (value what : String) (max_bytes : ℕ) → Guarded (decode_hex_strict value what max_bytes)
unfolding decode_hex_strict is_model_guard_error
decode_hex_strict-Guarded value what max_bytes =
    Guarded-if (ltb (2 * max_bytes) (code_count value)) _ _ (Guarded-err _ _ refl) (
      Guarded-if (is_odd_length (codes value) || not (all_codes is_lower_hex value)) _ _
        (Guarded-err _ _ refl) (Guarded-ok _))

answered-Guarded : (a : Answer) → Guarded (answered a)
unfolding Guarded answered is_model_guard_error
answered-Guarded a = ground arith

check_key_binding-Guarded :
    (claimed : Option String) (fp : String) → Guarded (check_key_binding claimed fp)
unfolding Guarded check_key_binding is_model_guard_error
check_key_binding-Guarded claimed fp = ground arith

-- A verifier that refuses by a `ModelGuardError` alone.
abbrev IsDecent : SignatureVerifier → Type 0
IsDecent v = (key signature message : Bytes) → Guarded (v.verify key signature message)

get-All :
    (d : Dict.Dict String SignatureVerifier) (k : String) (v : SignatureVerifier)
    → All IsDecent (Dict.values d)
    → Dict.get d k ≡ some v
    → IsDecent v
unfolding Dict.get
get-All [] k v all h = cc
get-All ((j, w) ∷ d) k v (here, there) h = elim (Bool-cases (k == j)) [
  | inl same ↦ subst IsDecent (some-injective w v (rw same at h)) here
  | inr other ↦ get-All d k v there (rw other at h)
]

find_verifier-IsDecent :
    (verifiers : Dict.Dict String SignatureVerifier) (algorithm : String) (v : SignatureVerifier)
    → All IsDecent (Dict.values verifiers)
    → find_verifier verifiers algorithm ≡ ok v
    → IsDecent v
unfolding find_verifier
find_verifier-IsDecent verifiers algorithm v all h =
    let found : Dict.get verifiers algorithm ≡ some v = ground (arith, h) in
    get-All verifiers algorithm v all found

find_verifier-Guarded :
    (verifiers : Dict.Dict String SignatureVerifier) (algorithm : String)
    → Guarded (find_verifier verifiers algorithm)
unfolding Guarded find_verifier is_model_guard_error
find_verifier-Guarded verifiers algorithm = ground arith

module _ (crypto : Cryptography) where
  ed25519-IsDecent : IsDecent (ed25519_verifier crypto)
  unfolding ed25519_verifier is_model_guard_error
  ed25519-IsDecent key signature message =
      Guarded-if (not (length key == 32)) _ _ (Guarded-err _ _ refl)
        (Guarded-if (not (length signature == 64)) _ _ (Guarded-err _ _ refl) (answered-Guarded _))

  ecdsa_p256-IsDecent : IsDecent (ecdsa_p256_verifier crypto)
  unfolding ecdsa_p256_verifier is_model_guard_error
  ecdsa_p256-IsDecent key signature message =
      Guarded-if (not (length key == 65) || not (starts_with_byte 0x04 key)) _ _
        (Guarded-err _ _ refl)
        (Guarded-if (not (leb 8 (length signature) && leb (length signature) 72)) _ _
          (Guarded-err _ _ refl) (answered-Guarded _))

  default_verifiers-IsDecent : All IsDecent (Dict.values (default_verifiers crypto))
  unfolding default_verifiers
  default_verifiers-IsDecent = (ed25519-IsDecent, (ecdsa_p256-IsDecent, tt))

  module _ (sha256 : Bytes → String) where
    -- Whatever the envelope, a signature that does not verify is refused by a `ModelGuardError`.
    verify_envelope_signature-Guarded :
        (envelope : SignatureEnvelope) (allow : Bool)
        → Guarded (verify_envelope_signature sha256 envelope (default_verifiers crypto) allow)
    unfolding verify_envelope_signature verify_under
    verify_envelope_signature-Guarded envelope allow =
        Guarded->>= _ _ (signed_scheme-Guarded envelope allow) λ (algorithm, claimed) _.
          Guarded->>= _ _ (find_verifier-Guarded _ algorithm) λ verifier found.
            Guarded->>= _ _ (decode_hex_strict-Guarded _ _ _) λ key _.
              Guarded->>= _ _ (decode_hex_strict-Guarded _ _ _) λ signature _.
                Guarded->>= _ _ (check_key_binding-Guarded claimed _) λ _ _.
                  Guarded->>= _ _
                    (find_verifier-IsDecent _ algorithm verifier default_verifiers-IsDecent found
                      key signature _)
                    λ _ _. Guarded-ok _

    check_artifact-Guarded :
        (fnmatch : String → String → Bool) (guard : ModelGuard) (world : World) (path : String)
        (envelope : SignatureEnvelope)
        → Guarded (hash_with guard.hasher world.hash_artifact path)
        → Guarded (check_artifact fnmatch sha256 crypto guard world path envelope)
    unfolding check_artifact check_artifact_digest
    check_artifact-Guarded fnmatch guard world path envelope g =
        Guarded->>= (hash_with guard.hasher world.hash_artifact path) _ g λ _ _. Guarded-ok _

    -- `verify` returns a result whenever the ML-BOM and the envelope can be read, the registry answers
    -- (if it is asked), and the artifact is hashed or refused by a `ModelGuardError`: a signature that
    -- does not verify, however it is malformed, never raises.
    pub verify_returns :
        (fnmatch : String → String → Bool) (guard : ModelGuard) (world : World) (clock : ℕ)
        (path mbom_path signature_path : String) (mbom : MlBom) (envelope : SignatureEnvelope)
        (answer : Option (Option RevocationRecord))
        → world.read_mbom mbom_path ≡ ok mbom
        → world.read_envelope signature_path ≡ ok envelope
        → Guarded (hash_with guard.hasher world.hash_artifact path)
        → consult guard.registry envelope.payload.model_id envelope.payload.version ≡ ok answer
        → (result : VerificationResult) × (verify fnmatch sha256 crypto guard world clock path
              mbom_path signature_path
            ≡ ok result)
    unfolding verify examine
    verify_returns fnmatch guard world clock path mbom_path signature_path mbom envelope answer m e
          hashed asked =
        let (signature, s) =
          attempt-Guarded _
            (verify_envelope_signature-Guarded envelope guard.allow_legacy_signatures) in
        let (tamper, t) =
          attempt-Guarded _ (check_artifact-Guarded fnmatch guard world path envelope hashed) in
        rw (m, e, s, t, asked) (_, refl)
