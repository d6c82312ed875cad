-- ===== src/Policy/Engine.antt =====
-- src/modelguard/policy/engine.py: the context of an evaluation, the eight rules and `evaluate`.
mod Checks
pub mod Outcomes
pub mod Severity
pub mod Guarantees
unfoldable pub use Checks.*
use mathlib.Core.List.{foldl}
use modelguard.Base.{String, Bool, true, false, Option, none, some, List, [], ◌∷◌, ◌++◌, ltb}
use modelguard.Base.{◌==◌, string_eq, if◌then◌else◌}
use modelguard.Base.Dict
use modelguard.Policy.Models.{Decision, severity, RuleAction, action_to_decision, RuleConfig}
use modelguard.Policy.Models.{PolicyDocument, RuleResult, PolicyDecisionResult, not_configured}
use modelguard.Policy.Models.{digest_differs}

-- The two variables that the loop of `evaluate` carries.
pub record Progress : Type 0 where
  pub results : List RuleResult
  pub decision : Decision

-- The decision that a failed rule asks for; a revoked model is never let through by `on_fail`.
unfoldable pub triggered : String → RuleAction → Decision
unfolding action_to_decision
triggered rule_name action =
    if rule_name == "reject_revoked_models" then Decision.revoked else action_to_decision action

unfoldable pub escalate : Decision → Decision → Decision
unfolding severity
escalate decision asked = if ltb (severity decision) (severity asked) then asked else decision

unfoldable pub skipped : String → RuleResult
skipped rule_name = record {
  rule = rule_name;
  enabled = false;
  passed = true;
  action = none;
  message = not_configured;
}

-- The body of the loop, for a rule that is enabled.
unfoldable pub apply_rule : PolicyEvaluationContext → RuleCheck → RuleConfig → Progress → Progress
unfolding triggered escalate
apply_rule context (rule_name, check) config p =
    let (passed, message) = check context config in
    let results =
      p.results
      ++ record {
        rule = rule_name;
        enabled = true;
        passed = passed;
        action = some config.on_fail;
        message = message;
      }
        ∷ [] in
    record {
      results = results;
      decision =
          if passed then p.decision else escalate p.decision (triggered rule_name config.on_fail);
    }

-- The body of the loop.
unfoldable pub check_rule :
    PolicyEvaluationContext → PolicyDocument → Progress → RuleCheck → Progress
unfolding apply_rule skipped Dict.get
check_rule context policy p (rule_name, check) =
    let pass_over = record p { results = p.results ++ skipped rule_name ∷ [] } in
    elim (Dict.get policy.rules rule_name) [
      | none ↦ pass_over
      | some config ↦
          if config.enabled then apply_rule context (rule_name, check) config p else pass_over
    ]

unfoldable pub integrity_failure : RuleResult
integrity_failure = record {
  rule = "artifact_integrity";
  enabled = true;
  passed = false;
  action = some RuleAction.deny;
  message = digest_differs;
}

-- The unconditional gate before the loop.
unfoldable pub integrity_gate : PolicyEvaluationContext → Progress
unfolding integrity_failure
integrity_gate context = elim context.artifact_digest_matches [
  | none ↦ record { results = []; decision = Decision.allow }
  | some matches ↦
      if matches
      then record { results = []; decision = Decision.allow }
      else record { results = integrity_failure ∷ []; decision = Decision.deny }
]

unfoldable pub evaluate :
    PolicyEvaluationContext → PolicyDocument → String → String → PolicyDecisionResult
unfolding check_rule integrity_gate rule_checks
evaluate context policy evaluation_id timestamp =
    let p = foldl (check_rule context policy) (integrity_gate context) rule_checks in
    record {
      decision = p.decision;
      policy_name = policy.name;
      policy_version = policy.version;
      subject = context.subject;
      rule_results = p.results;
      evaluation_id = evaluation_id;
      timestamp = timestamp;
    }
