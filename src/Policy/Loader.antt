-- ===== src/Policy/Loader.antt =====
-- src/modelguard/policy/loader.py: a policy file, from the value that `yaml.safe_load` reads to a
-- `PolicyDocument`. What pydantic makes of a value, and `str`, come from outside.
pub mod Accepted
pub mod Refused
pub mod Rules
use modelguard.Base.{
  ℕ, String, Bool, true, false, ◌&&◌, ◌||◌, not, Option, none, some, List, [], ◌∷◌, all, select,
  is_empty, map,
}
use modelguard.Base.{◌==◌, string_eq, contains, text_le, if◌then◌else◌}
use modelguard.Base.Sorting.{sorted}
use modelguard.Base.Dict.{Dict}
use modelguard.Base.Result.{Result, ok, err, require, ◌>>=◌, ◌>>◌}
use modelguard.Exceptions.{
  Exception, PolicyProblem, file_not_found, not_yaml, not_a_mapping, no_named_policy,
  rules_not_a_mapping, unknown_top_level, unknown_policy_fields, schema_refused, policy_validation,
  unknown_rule, foreign,
}
use modelguard.Policy.Models.{RuleAction, RuleConfig, PolicyDocument}

-- A key of a mapping: a text, or a value of another type by its `repr`.
pub data Key : Type 0 where
  name unnamed : String → Key

-- A value of a YAML document. A number, a flag, a date or a sequence is `plain`, by its `repr`.
mutual
  pub data Yaml : Type 0 where
    null : Yaml
    text plain : String → Yaml
    mapping : Fields → Yaml

  -- A Python dict: no key is met twice.
  pub data Fields : Type 0 where
    empty_mapping : Fields
    field : Key → Yaml → Fields → Fields

unfoldable pub keys_of : Fields → List Key
keys_of empty_mapping = []
keys_of (field k v fs) = k ∷ keys_of fs

-- `fields.get(name)`
unfoldable pub field_of : Fields → String → Option Yaml
field_of empty_mapping wanted = none
field_of (field (name k) v fs) wanted = if k == wanted then some v else field_of fs wanted
field_of (field (unnamed k) v fs) wanted = field_of fs wanted

abbrev pub key_text : Key → String
key_text (name s) = s
key_text (unnamed s) = s

abbrev pub is_name : Key → Bool
is_name (name s) = true
is_name (unnamed s) = false

-- `set(fields) - allowed`
unfoldable pub unknown_keys : Fields → List String → List Key
unfolding keys_of
unknown_keys fields allowed =
    select (λ k. not (is_name k && contains allowed (key_text k))) (keys_of fields)

abbrev pub known_rule_names : List String
known_rule_names =
    "require_valid_signature" ∷ "require_trusted_signer" ∷ "require_ml_bom"
    ∷ "require_known_lineage" ∷ "require_license" ∷ "reject_revoked_models"
    ∷ "max_critical_findings" ∷ "max_high_findings" ∷ []

-- What reading the file and parsing it gave; an exception of another class is passed on.
pub data PolicyFile : Type 0 where
  absent malformed : PolicyFile
  unreadable : Exception → PolicyFile
  loaded : Yaml → PolicyFile

-- The conversions of pydantic for a field of type `bool`, `int` (`none` where it is refused; the
-- constraint `ge=0` is the source's) and `str`; `str(value)`; and `sorted` of keys
-- that are all no texts.
pub data ℤ : Type 0 where
  pos negsuc : ℕ → ℤ

pub record Conversions : Type 0 where
  pub as_bool : Yaml → Option Bool
  pub as_int : Yaml → Option ℤ
  pub as_str : Yaml → Option String
  pub str : Yaml → String
  pub sort_others : List String → Result Exception (List String)

-- `Literal["warn", "review", "quarantine", "deny"]`
unfoldable pub action_of : Yaml → Option RuleAction
action_of (text s) =
    if s == "warn"
    then some RuleAction.warn
    else if s == "review"
    then some RuleAction.review
    else if s == "quarantine"
    then some RuleAction.quarantine
    else if s == "deny"
    then some RuleAction.deny
    else none
action_of _ = none

abbrev at_least_zero : Option ℤ → Option ℕ
at_least_zero (some (pos n)) = some n
at_least_zero _ = none

-- A field that has a default.
abbrev pub or_default : {A : Type 0} → (Yaml → Option A) → Option Yaml → A → Option A
or_default convert none value = some value
or_default convert (some given) value = convert given

abbrev pub refuse : {A : Type 0} → Option A → Result Exception A
refuse none = err (policy_validation schema_refused)
refuse (some a) = ok a

abbrev pub or_empty : Option Yaml → Yaml
or_empty none = mapping empty_mapping
or_empty (some v) = v

module _ (conv : Conversions) where
  -- `RuleConfig`, from the value of a rule.
  unfoldable pub rule_config : Yaml → Result Exception RuleConfig
  unfolding field_of unknown_keys action_of
  rule_config (mapping fields) = do
    require (is_empty (unknown_keys fields ("enabled" ∷ "on_fail" ∷ "max_count" ∷ [])))
        (policy_validation schema_refused)
    enabled ← refuse (or_default conv.as_bool (field_of fields "enabled") true)
    on_fail ← refuse (or_default action_of (field_of fields "on_fail") RuleAction.deny)
    max_count ←
        refuse (or_default (λ v. at_least_zero (conv.as_int v)) (field_of fields "max_count") 0)
    ok (record { enabled = enabled; on_fail = on_fail; max_count = max_count })
  rule_config _ = err (policy_validation schema_refused)

  unfoldable pub rule_configs : Fields → Result Exception (Dict String RuleConfig)
  unfolding rule_config
  rule_configs empty_mapping = ok []
  rule_configs (field k v fs) = do
    config ← rule_config v
    configs ← rule_configs fs
    ok ((key_text k, config) ∷ configs)

  -- The loop over `rules_section`.
  unfoldable pub check_rule_names : List Key → Result Exception (Unit {0})
  check_rule_names [] = ok tt
  check_rule_names (k ∷ ks) =
      let rest = check_rule_names ks in
      if is_name k && contains known_rule_names (key_text k)
      then rest
      else err (unknown_rule (key_text k))

  -- `sorted(unknown)`: Python does not compare a text with a value of another type.
  unfoldable pub sorted_keys : List Key → Result Exception (List String)
  unfolding sorted
  sorted_keys ks =
      let others = conv.sort_others (map key_text ks) in
      if all is_name ks
      then ok (sorted text_le (map key_text ks))
      else if all (λ k. not (is_name k)) ks
      then others
      else err (foreign "TypeError")

  -- `if unknown: raise PolicyValidationError(... sorted(unknown) ...)`
  unfoldable pub refuse_unknown :
      (List String → PolicyProblem) → List Key → Result Exception (Unit {0})
  unfolding sorted_keys
  refuse_unknown problem [] = ok tt
  refuse_unknown problem (k ∷ ks) = do
    listed ← sorted_keys (k ∷ ks)
    err (policy_validation (problem listed))

  -- `raw.get("rules", {})`
  abbrev pub rules_section : Fields → Yaml
  rules_section raw = or_empty (field_of raw "rules")

  -- `policy_section`, which is a mapping with a name.
  unfoldable pub named_section : Option Yaml → Result Exception (Fields × Yaml)
  unfolding field_of
  named_section (some (mapping fields)) = elim (field_of fields "name") [
    | none ↦ err (policy_validation no_named_policy)
    | some v ↦ ok (fields, v)
  ]
  named_section _ = err (policy_validation no_named_policy)

  unfoldable pub as_mapping : Yaml → PolicyProblem → Result Exception Fields
  as_mapping (mapping fields) problem = ok fields
  as_mapping _ problem = err (policy_validation problem)

  -- `environment: str | None`
  unfoldable pub environment_of : Option Yaml → Result Exception (Option String)
  environment_of none = ok none
  environment_of (some null) = ok none
  environment_of (some v) = do s ← refuse (conv.as_str v); ok (some s)

  unfoldable pub version_of : Option Yaml → String
  version_of none = "1"
  version_of (some v) = conv.str v

  -- `PolicyDocument(...)`, whose every refusal is passed on as one of the loader's.
  unfoldable pub policy_document : Fields → Fields → Yaml → Fields → Result Exception PolicyDocument
  unfolding environment_of version_of rule_configs field_of
  policy_document raw section named rules = do
    policy_name ← refuse (conv.as_str named)
    environment ← environment_of (field_of section "environment")
    configs ← rule_configs rules
    ok (record {
      version = version_of (field_of raw "version");
      name = policy_name;
      environment = environment;
      rules = configs;
    })

  unfoldable pub parse_policy_document : Fields → Result Exception PolicyDocument
  unfolding refuse_unknown unknown_keys named_section as_mapping check_rule_names policy_document
  parse_policy_document raw = do
    refuse_unknown unknown_top_level (unknown_keys raw ("version" ∷ "policy" ∷ "rules" ∷ []))
    section ← named_section (field_of raw "policy")
    rules ← as_mapping (rules_section raw) rules_not_a_mapping
    refuse_unknown unknown_policy_fields (unknown_keys section.0 ("name" ∷ "environment" ∷ []))
    check_rule_names (keys_of rules)
    policy_document raw section.0 section.1 rules

  unfoldable pub load_policy_file : PolicyFile → Result Exception PolicyDocument
  unfolding parse_policy_document as_mapping
  load_policy_file absent = err (policy_validation file_not_found)
  load_policy_file (unreadable raised) = err raised
  load_policy_file malformed = err (policy_validation not_yaml)
  load_policy_file (loaded value) = do
    raw ← as_mapping value not_a_mapping
    parse_policy_document raw
