-- ===== src/Exceptions.antt =====
-- src/modelguard/exceptions.py and the exceptions of the modules, as the values that are raised.
-- What a message interpolates is carried by the constructor that stands for the message.
use modelguard.Base.{ℕ, String, Bool, true, false, List}

-- The messages of `SignatureInvalidError` and its subclass.
pub data SignatureProblem : Type 0 where
  legacy_refused legacy_carries_binding : SignatureProblem
  legacy_type_unknown : String → SignatureProblem
  bound_lacks_binding : SignatureProblem
  label_altered : String → String → SignatureProblem
  version_unknown algorithm_unknown algorithm_duplicate : String → SignatureProblem
  too_long : String → ℕ → SignatureProblem
  not_canonical_hex : String → SignatureProblem
  key_substituted : String → String → SignatureProblem
  key_length signature_length : ℕ → SignatureProblem
  not_uncompressed_point signature_mismatch malformed_key : SignatureProblem
  mbom_unbound : SignatureProblem

pub data TrustProblem : Type 0 where
  fingerprint_invalid : String → TrustProblem
  fingerprints_empty : TrustProblem
  configured_twice : String → TrustProblem

pub data ProviderProblem : Type 0 where
  identity_unusable public_key_unusable signature_unusable self_check_failed : ProviderProblem
  provider_failed : ProviderProblem

pub data PolicyProblem : Type 0 where
  file_not_found not_yaml not_a_mapping no_named_policy rules_not_a_mapping : PolicyProblem
  unknown_top_level unknown_policy_fields : List String → PolicyProblem
  schema_refused : PolicyProblem

pub data Exception : Type 0 where
  artifact_not_found empty_artifact : String → Exception
  unsafe_path : String → String → Exception
  signature_invalid unsupported_signature_scheme : SignatureProblem → Exception
  malformed_signature : Exception
  signing_provider : ProviderProblem → Exception
  digest_mismatch : String → String → Exception
  trust_configuration : TrustProblem → Exception
  policy_validation : PolicyProblem → Exception
  unknown_rule : String → Exception
  invalid_identifier : String → String → String → Exception
  duplicate_registration : String → String → Exception
  chain_integrity : ℕ → String → Exception
  storage_required registration_incomplete : Exception
  artifact_store artifact_integrity : String → Exception
  blob_not_found : Exception
  -- exceptions that are no `ModelGuardError`
  os_error value_error key_error validation_error : Exception
  foreign : String → Exception

-- `isinstance(exc, ModelGuardError)`; `ChainIntegrityError` derives from `Exception` alone.
unfoldable pub is_model_guard_error : Exception → Bool
is_model_guard_error (chain_integrity _ _) = false
is_model_guard_error os_error = false
is_model_guard_error value_error = false
is_model_guard_error key_error = false
is_model_guard_error validation_error = false
is_model_guard_error (foreign _) = false
is_model_guard_error _ = true
