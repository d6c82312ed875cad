-- ===== src/Tests/TrustRuns.antt =====
-- Trust configurations (src/modelguard/signing/trust_config.py) with two keys.
use modelguard.Base.{
  String, ◌≡◌, ◌↔◌, refl, true, false, some, none, List, [], ◌∷◌, string_eq, All, Bool, ◌==◌,
}
use native.Mathlib.Decide.{ℕ_discrete}
use modelguard.Signing.TrustConfig.{
  TrustedKeyEntry, TrustConfig, TrustQuery, active, retired, evaluate_trust, merge_trust_configs,
  all_keys, unique_key_ids, entry_eq, status_eq,
}
use modelguard.Signing.TrustConfig.Trusted.{Trusts, entry_for, evaluate_trust-trusted_iff}
use modelguard.Signing.TrustConfig.Merging.{merge_trust_configs_sound}

abbrev old_key : TrustedKeyEntry
old_key = record {
  key_id = "aa";
  algorithm = some "ed25519";
  status = retired;
  not_before = some 10;
  not_after = some 20;
  signer_identity = none;
  scope_model_id_patterns = "demo" ∷ [];
  label = none;
}

abbrev new_key : TrustedKeyEntry
new_key = record old_key { key_id = "bb"; status = active; not_after = none }

abbrev rotation : TrustConfig
rotation = record { version = "1"; keys = old_key ∷ new_key ∷ [] }

abbrev again : TrustConfig
again = record { version = "1"; keys = new_key ∷ [] }

abbrev query : TrustQuery
query = record {
  algorithm = "ed25519";
  claimed_signer_identity = some "dev";
  model_id = some "demo";
  clock = 15;
}

abbrev exactly : String → String → Bool
exactly name pattern = name == pattern

new_is_trusted : (evaluate_trust exactly "bb" rotation query).trusted ≡ true
unfolding evaluate_trust string_eq status_eq
new_is_trusted = refl

old_is_not_trusted : (evaluate_trust exactly "aa" rotation query).trusted ≡ false
unfolding evaluate_trust string_eq status_eq
old_is_not_trusted = refl

evaluate_trust-trusted_iff_example :
    ((evaluate_trust exactly "bb" rotation query).trusted ≡ true) ↔ (
      (key : TrustedKeyEntry) × (entry_for rotation.keys "bb" ≡ some key)
      × Trusts exactly key query)
evaluate_trust-trusted_iff_example = evaluate_trust-trusted_iff exactly "bb" rotation query

abbrev sources : List TrustConfig
sources = rotation ∷ again ∷ []

merge_trust_configs_sound_example :
    ((fp : String) → entry_for rotation.keys fp ≡ entry_for (all_keys sources) fp)
    × All (λ key. entry_for rotation.keys key.key_id ≡ some key) (all_keys sources)
    × (unique_key_ids rotation.keys [] ≡ true)
unfolding merge_trust_configs string_eq entry_eq ℕ_discrete
merge_trust_configs_sound_example = merge_trust_configs_sound sources rotation refl
