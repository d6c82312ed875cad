-- ===== src/Signing/Schemes.antt =====
-- src/modelguard/signing/schemes.py: the verifiers of the two schemes and their registry. What the
-- `cryptography` package answers is a parameter, and so is SHA-256.
use modelguard.Base.{ℕ, ◌*◌, String, Bool, true, false, not, ◌&&◌, ◌||◌, List, []}
use modelguard.Base.{◌∷◌, ltb, leb, length, ◌==◌, nat_eq, string_eq, if◌then◌else◌, code_count}
use modelguard.Base.{all_codes, is_lower_hex}
use modelguard.Base.Bytes.{Bytes, codes, from_hex}
use modelguard.Base.Dict
use modelguard.Base.Dict.{Dict}
use modelguard.Base.Result.{Result, ok, err}
use modelguard.Exceptions.{
  Exception, SignatureProblem, signature_invalid, unsupported_signature_scheme, too_long,
  not_canonical_hex, algorithm_duplicate, key_length, signature_length, not_uncompressed_point,
  signature_mismatch, malformed_key,
}

-- What a call of the `cryptography` package does: return, raise `InvalidSignature`, or raise
-- `ValueError`.
pub data Answer : Type 0 where
  valid invalid malformed : Answer

pub record Cryptography : Type 0 where
  pub ed25519 : Bytes → Bytes → Bytes → Answer
  pub ecdsa_p256 : Bytes → Bytes → Bytes → Answer

pub record SignatureVerifier : Type 0 where
  pub algorithm : String
  pub verify : Bytes → Bytes → Bytes → Result Exception (Unit {0})

abbrev pub Registry : Type 0
Registry = Dict String SignatureVerifier

abbrev pub refuse : SignatureProblem → Result Exception (Unit {0})
refuse problem = err (signature_invalid problem)

unfoldable pub answered : Answer → Result Exception (Unit {0})
answered valid = ok tt
answered invalid = refuse signature_mismatch
answered malformed = refuse malformed_key

abbrev pub starts_with_byte : ℕ → Bytes → Bool
starts_with_byte b [] = false
starts_with_byte b (c ∷ _) = c == b

module _ (crypto : Cryptography) where
  unfoldable pub ed25519_verifier : SignatureVerifier
  unfolding answered
  ed25519_verifier = record {
    algorithm = "ed25519";
    verify = λ public_key signature message.
        if not (length public_key == 32)
        then refuse (key_length (length public_key))
        else if not (length signature == 64)
        then refuse (signature_length (length signature))
        else answered (crypto.ed25519 public_key signature message);
  }

  unfoldable pub ecdsa_p256_verifier : SignatureVerifier
  unfolding answered
  ecdsa_p256_verifier = record {
    algorithm = "ecdsa-p256-sha256";
    verify = λ public_key signature message.
        if not (length public_key == 65) || not (starts_with_byte 0x04 public_key)
        then refuse not_uncompressed_point
        else if not (leb 8 (length signature) && leb (length signature) 72)
        then refuse (signature_length (length signature))
        else answered (crypto.ecdsa_p256 public_key signature message);
  }

  -- `DEFAULT_VERIFIERS`
  unfoldable pub default_verifiers : Registry
  unfolding ed25519_verifier ecdsa_p256_verifier
  default_verifiers =
      ("ed25519", ed25519_verifier) ∷ ("ecdsa-p256-sha256", ecdsa_p256_verifier) ∷ []

-- The loop of `verifier_registry`.
unfoldable pub add_verifiers : List SignatureVerifier → Registry → Result Exception Registry
unfolding Dict.has Dict.set
add_verifiers [] registry = ok registry
add_verifiers (verifier ∷ extra) registry =
    let more = add_verifiers extra (Dict.set registry verifier.algorithm verifier) in
    if Dict.has registry verifier.algorithm
    then err (unsupported_signature_scheme (algorithm_duplicate verifier.algorithm))
    else more

unfoldable pub verifier_registry : Cryptography → List SignatureVerifier → Result Exception Registry
unfolding add_verifiers default_verifiers
verifier_registry crypto extra = add_verifiers extra (default_verifiers crypto)

-- `hashlib.sha256(public_key).hexdigest()`
unfoldable pub key_fingerprint : (Bytes → String) → Bytes → String
key_fingerprint sha256 public_key = sha256 public_key

-- `n % 2 != 0`
unfoldable pub is_odd_length : List ℕ → Bool
is_odd_length [] = false
is_odd_length (_ ∷ []) = true
is_odd_length (_ ∷ _ ∷ cs) = is_odd_length cs

unfoldable pub decode_hex_strict : String → String → ℕ → Result Exception Bytes
unfolding is_lower_hex is_odd_length from_hex
decode_hex_strict value what max_bytes =
    if ltb (2 * max_bytes) (code_count value)
    then err (signature_invalid (too_long what (code_count value)))
    else if is_odd_length (codes value) || not (all_codes is_lower_hex value)
    then err (signature_invalid (not_canonical_hex what))
    else ok (from_hex (codes value))
