-- ===== src/Tests/RegistryRuns.antt =====
-- The local registry (src/modelguard/registry/local.py) with one record and one revocation.
use modelguard.Tests.Samples.{digest_zero, manifest, mbom}
use modelguard.Base.{
  String, ◌≡◌, ◌↔◌, inr, refl, some, none, [], ◌∷◌, TextMethods, string_eq, nat_eq, is_sha256_hex,
  is_lower_hex, true,
}
use modelguard.Base.Dict
use modelguard.Base.Result.{ok}
use modelguard.Manifest.{Manifest}
use modelguard.Audit.Chain.{completes, ChainEntry, verify_chain, read_all_entries, verify_entries}
use modelguard.Registry.Identifiers.{validate_identifier, problem, IsSafe, validate_identifier_iff}
use modelguard.Registry.Models.{is_artifact_digest, RegistryRecord, RevocationRecord}
use modelguard.Registry.Local.{
  LocalRegistry, empty_registry, key_eq, index_first, register, get, get_by_digest, version_path,
  revoke, unrevoke,
}
use modelguard.Registry.Local.Records.{
  IsValid, register-IsValid, register_iff, register-get_by_digest,
}
use modelguard.Sdk.Registration.{register_model, register_model-get}
use modelguard.Registry.Local.Revocations.{IsSound, Answers, revoke-is_revoked, unrevoke-is_revoked}

-- Stand-ins for the character tables and for SHA-256.
abbrev plain : TextMethods
plain = record { strip = λ s. s; lower = λ s. s; nfc = λ s. s }

abbrev digest_text : String
digest_text = "sha256:0000000000000000000000000000000000000000000000000000000000000000"

abbrev measured : Manifest
measured = record manifest {
  digest = "0000000000000000000000000000000000000000000000000000000000000000";
}

abbrev first : RegistryRecord
first = record {
  model_id = "demo";
  version = "1";
  artifact_digest = digest_text;
  manifest = measured;
  mbom = mbom;
  registered_by = "dev";
  registered_at = "now";
}

-- The same bytes under another name.
abbrev again : RegistryRecord
again = record first { model_id = "copy" }

abbrev one_record : LocalRegistry
one_record = record {
  records = (("demo", "1"), first) ∷ [];
  digest_index = (digest_text, ("demo", "1")) ∷ [];
  revocation_log = none;
}

abbrev two_records : LocalRegistry
two_records = record {
  records = (("demo", "1"), first) ∷ (("copy", "1"), again) ∷ [];
  digest_index = (digest_text, ("demo", "1")) ∷ [];
  revocation_log = none;
}

registers : register plain empty_registry first ≡ ok (first, one_record)
unfolding register version_path validate_identifier problem index_first Dict.has Dict.set string_eq
    nat_eq key_eq
registers = refl

registers_again : register plain one_record again ≡ ok (again, two_records)
unfolding register version_path validate_identifier problem index_first Dict.has Dict.set string_eq
    nat_eq key_eq
registers_again = refl

resolves : get_by_digest plain one_record digest_text ≡ ok (some first)
unfolding get_by_digest get version_path validate_identifier problem Dict.get string_eq nat_eq
    key_eq
resolves = refl

empty-IsValid : IsValid empty_registry
unfolding Dict.get
empty-IsValid = record { named = λ k r h. cc; found = λ k r h. cc; indexed = λ d k h. cc }

register-IsValid_example : IsValid one_record
register-IsValid_example =
    register-IsValid plain empty_registry first (first, one_record) registers empty-IsValid

demo-IsSafe : IsSafe plain "demo"
unfolding validate_identifier problem string_eq nat_eq
demo-IsSafe = ((validate_identifier_iff plain "demo" "model_id" "demo").0 refl).0

one-IsSafe : IsSafe plain "1"
unfolding validate_identifier problem string_eq nat_eq
one-IsSafe = ((validate_identifier_iff plain "1" "version" "1").0 refl).0

validate_identifier_iff_example :
    (validate_identifier plain "demo" "model_id" ≡ ok "demo")
    ↔ (IsSafe plain "demo" × (◌≡◌ {A = String} "demo" "demo"))
validate_identifier_iff_example = validate_identifier_iff plain "demo" "model_id" "demo"

register_iff_example :
    ((x : RegistryRecord × LocalRegistry) × (register plain one_record first ≡ ok x))
    ↔ (IsSafe plain "demo" × IsSafe plain "1" × (Dict.get one_record.records ("demo", "1") ≡ none))
register_iff_example = register_iff plain one_record first

register-get_by_digest_example : get_by_digest plain two_records digest_text ≡ ok (some first)
register-get_by_digest_example =
    register-get_by_digest plain one_record again (again, two_records) registers_again digest_text
      first resolves

abbrev revocation : RevocationRecord
revocation = record {
  model_id = "demo";
  version = "1";
  revoked_by = "sec";
  reason = "leak";
  revoked_at = "now";
}

empty_log-IsSound : IsSound plain digest_zero one_record []
unfolding verify_chain read_all_entries verify_entries
empty_log-IsSound = record {
  read = refl;
  accepted = refl;
  used = inr refl;
  ended = tt;
  actions = tt;
}

revoke-is_revoked_example :
    (after : LocalRegistry) × (e : ChainEntry) × (revoke plain digest_zero completes one_record
        revocation
      ≡ (ok revocation, after))
    × IsSound plain digest_zero after (e ∷ [])
    × Answers plain digest_zero one_record after "demo" "1" (some revocation)
revoke-is_revoked_example =
    revoke-is_revoked plain digest_zero one_record [] revocation empty_log-IsSound demo-IsSafe
      one-IsSafe

unrevoke-is_revoked_example :
    (after : LocalRegistry) × (e : ChainEntry) × (unrevoke plain digest_zero completes one_record
        "demo" "1" "sec" "fixed"
      ≡ (ok tt, after))
    × IsSound plain digest_zero after (e ∷ [])
    × Answers plain digest_zero one_record after "demo" "1" none
unrevoke-is_revoked_example =
    unrevoke-is_revoked plain digest_zero one_record [] "demo" "1" "sec" "fixed" empty_log-IsSound
      demo-IsSafe one-IsSafe

registers_model :
    register_model plain empty_registry measured mbom "dev" "now" ≡ ok (first, one_record)
unfolding register_model is_artifact_digest is_sha256_hex is_lower_hex register version_path
    validate_identifier problem index_first Dict.has Dict.set string_eq nat_eq key_eq
registers_model = refl

register_model-get_example :
    (get plain one_record "demo" "1" ≡ ok (some first))
    × (first.manifest ≡ measured)
    × (first.mbom ≡ mbom)
    × (first.artifact_digest ≡ digest_text)
    × (is_artifact_digest first.artifact_digest ≡ true)
register_model-get_example =
    register_model-get plain empty_registry measured mbom "dev" "now" first one_record
      registers_model
