-- ===== src/Policy/Engine/Outcomes.antt =====
-- Which results `evaluate` reports, described rule by rule and with no accumulator.
use mathlib.Core.List.{foldl, append_assoc, append-nil}
use modelguard.Base.{String, ◌≡◌, ◌∙◌, true, Option, none, some, List, [], ◌∷◌}
use modelguard.Base.{◌++◌, map, arith, string_eq, if◌then◌else◌}
use modelguard.Base.Dict
use modelguard.Policy.Models.{RuleConfig, PolicyDocument, RuleResult}
use modelguard.Policy.Engine.{
  PolicyEvaluationContext, RuleCheck, rule_checks, Progress, skipped, check_rule, integrity_gate,
  evaluate,
}

-- The configuration of a rule that is present and enabled.
abbrev pub when_enabled : Option RuleConfig → Option RuleConfig
when_enabled none = none
when_enabled (some config) = if config.enabled then some config else none

unfoldable pub active : PolicyDocument → String → Option RuleConfig
unfolding Dict.get
active policy rule_name = when_enabled (Dict.get policy.rules rule_name)

-- What is reported of one rule.
unfoldable pub reported : PolicyEvaluationContext → RuleCheck → Option RuleConfig → RuleResult
unfolding skipped
reported context (rule_name, check) none = skipped rule_name
reported context (rule_name, check) (some config) = record {
  rule = rule_name;
  enabled = true;
  passed = (check context config).0;
  action = some config.on_fail;
  message = (check context config).1;
}

unfoldable pub outcome : PolicyEvaluationContext → PolicyDocument → RuleCheck → RuleResult
unfolding reported
outcome context policy rc = reported context rc (active policy rc.0)

module _ (context : PolicyEvaluationContext) (policy : PolicyDocument) where
  results-check_rule :
      (p : Progress) (rc : RuleCheck)
      → (check_rule context policy p rc).results ≡ p.results ++ outcome context policy rc ∷ []
  unfolding check_rule outcome active
  results-check_rule p (rule_name, check) = ground arith

  results-foldl :
      (rules : List RuleCheck) (p : Progress)
      → (foldl (check_rule context policy) p rules).results
        ≡ p.results ++ map (outcome context policy) rules
  results-foldl [] p = rw append-nil
  results-foldl (rc ∷ rules) p =
      results-foldl rules (check_rule context policy p rc)
      ∙ rw (results-check_rule p rc, append_assoc)

  -- `evaluate` reports the integrity gate, if it fails, and then each of the eight rules once, in
  -- their order: as not configured if the policy lacks or disables it, and otherwise with the
  -- verdict of its check and the configured action.
  pub evaluate-rule_results :
      (id now : String)
      → (evaluate context policy id now).rule_results
        ≡ (integrity_gate context).results ++ map (outcome context policy) rule_checks
  unfolding evaluate
  evaluate-rule_results id now = results-foldl rule_checks (integrity_gate context)
