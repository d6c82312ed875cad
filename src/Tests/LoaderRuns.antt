-- ===== src/Tests/LoaderRuns.antt =====
-- The policy loader (src/modelguard/policy/loader.py) on a policy file, and on one whose unknown keys
-- Python cannot sort.
use modelguard.Base.{String, ◌≡◌, refl, true, Option, none, some, [], ◌∷◌, Memᴰ, string_eq}
use modelguard.Base.Dict.{get}
use modelguard.Base.Result.{ok, err}
use modelguard.Exceptions.{policy_validation, not_a_mapping, unknown_rule, foreign}
use modelguard.Policy.Models.{RuleAction, RuleConfig, PolicyDocument}
use modelguard.Policy.Engine.{PolicyEvaluationContext, RuleCheck, rule_checks, evaluate}
use modelguard.Policy.Engine.Outcomes.{reported, when_enabled}
use modelguard.Policy.Loader.{
  rule_config, field_of, Yaml, null, text, plain, mapping, Fields, empty_mapping, field, name,
  unnamed, loaded, Conversions, load_policy_file,
}
use modelguard.Policy.Loader.Accepted.{loaded_rule_is_evaluated}
use modelguard.Policy.Loader.Refused.{is_policy_error, load_policy_file-raises}

abbrev text_of : Yaml → Option String
text_of (text s) = some s
text_of _ = none

abbrev repr : Yaml → String
repr (text s) = s
repr (plain s) = s
repr _ = ""

abbrev conversions : Conversions
conversions = record {
  as_bool = λ v. none;
  as_int = λ v. none;
  as_str = text_of;
  str = repr;
  sort_others = ok;
}

abbrev review_value : Yaml
review_value = mapping (field (name "on_fail") (text "review") empty_mapping)

abbrev rule_fields : Fields
rule_fields = field (name "require_license") review_value empty_mapping

abbrev production_file : Fields
production_file =
    field (name "policy") (mapping (field (name "name") (text "production") empty_mapping))
      (field (name "rules") (mapping rule_fields) empty_mapping)

abbrev review_first : RuleConfig
review_first = record { enabled = true; on_fail = RuleAction.review; max_count = 0 }

abbrev production : PolicyDocument
production = record {
  version = "1";
  name = "production";
  environment = none;
  rules = ("require_license", review_first) ∷ [];
}

production_loads : load_policy_file conversions (loaded (mapping production_file)) ≡ ok production
unfolding load_policy_file string_eq
production_loads = refl

misspelt_rule_is_refused :
    load_policy_file conversions (
      loaded (
        mapping (
          field
            (name "rules")
            (mapping (field (name "require_licence") null empty_mapping))
            production_file)))
    ≡ err (unknown_rule "require_licence")
unfolding load_policy_file string_eq
misspelt_rule_is_refused = refl

mixed_keys_escape :
    load_policy_file conversions
      (loaded (mapping (field (unnamed "1") null (field (name "polcy") null production_file))))
    ≡ err (foreign "TypeError")
unfolding load_policy_file string_eq
mixed_keys_escape = refl

loaded_rule_is_evaluated_example :
    (config : RuleConfig) × (check : RuleCheck) × (rule_config conversions review_value ≡ ok config)
    × (get production.rules "require_license" ≡ some config)
    × Memᴰ check rule_checks
    × (check.0 ≡ "require_license")
    × ((context : PolicyEvaluationContext) (id now : String)
        → Memᴰ
            (reported context check (when_enabled (some config)))
            (evaluate context production id now).rule_results)
unfolding field_of string_eq
loaded_rule_is_evaluated_example =
    loaded_rule_is_evaluated conversions production_file rule_fields production "require_license"
      review_value production_loads refl refl

load_policy_file-raises_example : is_policy_error (policy_validation not_a_mapping) ≡ true
unfolding load_policy_file
load_policy_file-raises_example =
    load_policy_file-raises conversions (loaded null) (policy_validation not_a_mapping) tt refl
