-- ===== src/Signing/Trust.antt =====
-- src/modelguard/signing/trust.py: fingerprints of trusted keys.
use modelguard.Base.{String, TextMethods, List, [], ◌∷◌, contains, string_eq}
use modelguard.Base.{if◌then◌else◌, is_sha256_hex, remove_prefix}
use modelguard.Base.Result.{Result, ok, err, ◌>>=◌}
use modelguard.Exceptions.{Exception, trust_configuration, fingerprint_invalid, fingerprints_empty}

-- The one way in which a fingerprint is brought to its normal form.
unfoldable pub normalize_key_id : TextMethods → String → String
normalize_key_id py raw = remove_prefix "sha256:" (py.lower (py.strip raw))

module _ (py : TextMethods) where
  -- The loop over the given texts; a set is a list that repeats nothing.
  unfoldable pub collect_fingerprints : List String → List String → Result Exception (List String)
  unfolding normalize_key_id
  collect_fingerprints [] normalized = ok normalized
  collect_fingerprints (raw ∷ rest) normalized =
      let candidate = normalize_key_id py raw in
      let more =
        collect_fingerprints rest
          (if contains normalized candidate then normalized else candidate ∷ normalized) in
      if is_sha256_hex candidate then more else err (trust_configuration (fingerprint_invalid raw))

  abbrev refuse_empty : List String → Result Exception (List String)
  refuse_empty [] = err (trust_configuration fingerprints_empty)
  refuse_empty (fp ∷ fps) = ok (fp ∷ fps)

  unfoldable pub normalize_fingerprints : List String → Result Exception (List String)
  unfolding collect_fingerprints
  normalize_fingerprints fingerprints = do
    normalized ← collect_fingerprints fingerprints []
    refuse_empty normalized
