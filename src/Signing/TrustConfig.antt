-- ===== src/Signing/TrustConfig.antt =====
-- src/modelguard/signing/trust_config.py: trusted keys with their conditions, and `evaluate_trust`.
-- An instant is a count of microseconds. `fnmatch` stands for `fnmatch.fnmatchcase`.
pub mod Trusted
pub mod Merging
use native.Mathlib.Decide.{ℕ_discrete}
use modelguard.Base.{
  ℕ, TextMethods, String, ◌≡◌, true, false, Bool, not, ◌&&◌, ◌||◌, Option, none, some, List, [],
}
use modelguard.Base.{
  ◌∷◌, ◌++◌, map, ltb, leb, any, all, select, is_empty, length, Eq, ◌==◌, string_eq,
}
use modelguard.Base.{option_eq, string_discrete, contains, if◌then◌else◌, code_count, any_code}
use modelguard.Base.{all_codes, is_sha256_hex, is_lower_hex, text_le}
use modelguard.Base.Dict
use modelguard.Base.Dict.{Dict}
use modelguard.Base.Sorting.{sorted}
use modelguard.Base.Result.{Result, ok, err, ◌>>=◌}
use modelguard.Exceptions.{Exception, validation_error, trust_configuration, configured_twice}
use modelguard.Signing.Trust.{normalize_key_id, normalize_fingerprints}

pub data TrustedKeyStatus : Type 0 where
  active retired revoked : TrustedKeyStatus

pub TrustedKeyStatus-discrete : Discrete TrustedKeyStatus
TrustedKeyStatus-discrete = hlevel

instance unfoldable pub status_eq : Eq TrustedKeyStatus
unfolding TrustedKeyStatus-discrete
status_eq = record { dec = TrustedKeyStatus-discrete }

pub record TrustedKeyEntry : Type 0 where
  pub key_id : String
  pub algorithm : Option String
  pub status : TrustedKeyStatus
  pub not_before : Option ℕ
  pub not_after : Option ℕ
  pub signer_identity : Option String
  pub scope_model_id_patterns : List String
  pub label : Option String

pub TrustedKeyEntry-discrete : Discrete TrustedKeyEntry
TrustedKeyEntry-discrete = hlevel (ℕ_discrete, string_discrete)

instance unfoldable pub entry_eq : Eq TrustedKeyEntry
unfolding TrustedKeyEntry-discrete
entry_eq = record { dec = TrustedKeyEntry-discrete }

pub record TrustConfig : Type 0 where
  pub version : String
  pub keys : List TrustedKeyEntry

-- The validator `_validate_unique_key_ids`: whether no fingerprint stands twice.
unfoldable pub unique_key_ids : List TrustedKeyEntry → List String → Bool
unique_key_ids [] seen = true
unique_key_ids (key ∷ keys) seen =
    let rest = unique_key_ids keys (key.key_id ∷ seen) in
    if contains seen key.key_id then false else rest

-- `TrustConfig(version=..., keys=...)`
unfoldable pub make_trust_config : List TrustedKeyEntry → Result Exception TrustConfig
unfolding unique_key_ids
make_trust_config keys =
    if unique_key_ids keys []
    then ok (record { version = "1"; keys = keys })
    else err validation_error

-- `TrustedKeyEntry(key_id=fp)`
unfoldable pub unconstrained : String → TrustedKeyEntry
unconstrained fp = record {
  key_id = fp;
  algorithm = none;
  status = active;
  not_before = none;
  not_after = none;
  signer_identity = none;
  scope_model_id_patterns = [];
  label = none;
}

unfoldable pub build_minimal_trust_config : TextMethods → List String → Result Exception TrustConfig
unfolding make_trust_config unconstrained normalize_fingerprints sorted
build_minimal_trust_config py fingerprints = do
  normalized ← normalize_fingerprints py fingerprints
  make_trust_config (map unconstrained (sorted text_le normalized))

-- `existing is not None and existing != key`
unfoldable pub conflicts : Option TrustedKeyEntry → TrustedKeyEntry → Bool
conflicts none key = false
conflicts (some existing) key = not (existing == key)

-- The loops of `merge_trust_configs` over the keys of all sources, in order.
unfoldable pub merge_keys :
    Dict String TrustedKeyEntry
    → List TrustedKeyEntry
    → Result Exception (Dict String TrustedKeyEntry)
unfolding conflicts Dict.get Dict.set
merge_keys merged [] = ok merged
merge_keys merged (key ∷ keys) =
    let rest = merge_keys (Dict.set merged key.key_id key) keys in
    if conflicts (Dict.get merged key.key_id) key
    then err (trust_configuration (configured_twice key.key_id))
    else rest

unfoldable pub all_keys : List TrustConfig → List TrustedKeyEntry
all_keys [] = []
all_keys (config ∷ configs) = config.keys ++ all_keys configs

unfoldable pub merge_trust_configs : List TrustConfig → Result Exception TrustConfig
unfolding merge_keys all_keys make_trust_config
merge_trust_configs configs = do
  merged ← merge_keys [] (all_keys configs)
  make_trust_config (Dict.values merged)

pub data TrustReason : Type 0 where
  no_trusted_key : String → TrustReason
  algorithm_differs : String → Option String → String → TrustReason
  key_not_active : String → TrustedKeyStatus → TrustReason
  key_not_yet_valid key_expired : String → Option ℕ → ℕ → TrustReason
  identity_differs : String → Option String → Option String → TrustReason
  scope_differs : String → List String → Option String → TrustReason

pub record TrustEvaluation : Type 0 where
  pub trusted : Bool
  pub matched_key : Option TrustedKeyEntry
  pub reasons : List TrustReason

-- What a verification asks of a key besides its fingerprint. `clock` is the verifier's own.
pub record TrustQuery : Type 0 where
  pub algorithm : String
  pub claimed_signer_identity : Option String
  pub model_id : Option String
  pub clock : ℕ

-- `if problem: reasons.append(reason)`
abbrev note_if : Bool → TrustReason → List TrustReason → List TrustReason
note_if problem reason reasons = if problem then reasons ++ reason ∷ [] else reasons

unfoldable pub wrong_algorithm : TrustedKeyEntry → TrustQuery → Bool
wrong_algorithm key q = elim key.algorithm [ none ↦ false | some a ↦ not (a == q.algorithm) ]

unfoldable pub too_early : TrustedKeyEntry → TrustQuery → Bool
too_early key q = elim key.not_before [ none ↦ false | some t ↦ ltb q.clock t ]

unfoldable pub too_late : TrustedKeyEntry → TrustQuery → Bool
too_late key q = elim key.not_after [ none ↦ false | some t ↦ ltb t q.clock ]

unfoldable pub wrong_identity : TrustedKeyEntry → TrustQuery → Bool
wrong_identity key q = elim key.signer_identity [
  | none ↦ false
  | some identity ↦ not (some identity == q.claimed_signer_identity)
]

module _ (fnmatch : String → String → Bool) where
  unfoldable pub out_of_scope : TrustedKeyEntry → TrustQuery → Bool
  out_of_scope key q = if is_empty key.scope_model_id_patterns then false else elim q.model_id [
    | none ↦ true
    | some model_id ↦ not (any (fnmatch model_id) key.scope_model_id_patterns)
  ]

  -- The reasons against a key that was found, in the order of the source.
  unfoldable pub key_reasons : TrustedKeyEntry → TrustQuery → List TrustReason
  unfolding wrong_algorithm too_early too_late wrong_identity out_of_scope
  key_reasons key q =
      note_if (out_of_scope key q) (scope_differs key.key_id key.scope_model_id_patterns q.model_id)
        (note_if (wrong_identity key q)
          (identity_differs key.key_id key.signer_identity q.claimed_signer_identity)
          (note_if (too_late key q) (key_expired key.key_id key.not_after q.clock) (
            note_if (too_early key q) (key_not_yet_valid key.key_id key.not_before q.clock) (
              note_if (not (key.status == active)) (key_not_active key.key_id key.status) (
                note_if (wrong_algorithm key q)
                  (algorithm_differs key.key_id key.algorithm q.algorithm) [])))))

  -- `matches`, and the first of them if there is one.
  unfoldable pub evaluate_matches : String → TrustQuery → List TrustedKeyEntry → TrustEvaluation
  unfolding key_reasons
  evaluate_matches fp q [] = record {
    trusted = false;
    matched_key = none;
    reasons = no_trusted_key fp ∷ [];
  }
  evaluate_matches fp q (key ∷ _) =
      let reasons = key_reasons key q in
      record { trusted = is_empty reasons; matched_key = some key; reasons = reasons }

  unfoldable pub evaluate_trust : String → TrustConfig → TrustQuery → TrustEvaluation
  unfolding evaluate_matches
  evaluate_trust key_fingerprint trust_config q =
      evaluate_matches key_fingerprint q
        (select (λ key. key.key_id == key_fingerprint) trust_config.keys)
