-- ===== src/Policy/Engine/Severity.antt =====
-- The decision is the most severe one that a reported result asks for.
use Prim.Native.Nat.{max}
use mathlib.Core.List.{foldl}
use modelguard.Base.{ℕ, String, ◌≡◌, Option, none, some}
use modelguard.Base.{List, [], ◌∷◌, ◌++◌, arith, string_eq, if◌then◌else◌}
use modelguard.Policy.Models.{
  Decision, severity, RuleAction, PolicyDocument, RuleResult, has_failed,
}
use modelguard.Policy.Engine.{
  PolicyEvaluationContext, RuleCheck, rule_checks, Progress, triggered, escalate, check_rule,
  integrity_gate, evaluate,
}

-- The decision that a reported result asks for.
abbrev asked_by : String → Option RuleAction → Decision
asked_by rule_name none = Decision.allow
asked_by rule_name (some action) = triggered rule_name action

unfoldable pub demanded : RuleResult → Decision
unfolding has_failed triggered
demanded r = if has_failed r then asked_by r.rule r.action else Decision.allow

-- The greatest severity that a list of results asks for.
unfoldable pub worst : List RuleResult → ℕ
worst [] = 0
worst (r ∷ rs) = max (severity (demanded r)) (worst rs)

pub worst-append : (rs ss : List RuleResult) → worst (rs ++ ss) ≡ max (worst rs) (worst ss)
unfolding worst
worst-append [] ss = omega arith
worst-append (r ∷ rs) ss = omega (arith, worst-append rs ss)

severity-escalate : (d e : Decision) → severity (escalate d e) ≡ max (severity d) (severity e)
unfolding escalate
severity-escalate d e = ground arith

module _ (context : PolicyEvaluationContext) (policy : PolicyDocument) where
  abbrev Balanced : Progress → Type 0
  Balanced p = severity p.decision ≡ worst p.results

  check_rule-Balanced :
      (p : Progress) (rc : RuleCheck) → Balanced p → Balanced (check_rule context policy p rc)
  unfolding check_rule worst demanded
  check_rule-Balanced p (rule_name, check) h = grind (arith, worst-append, severity-escalate)

  foldl-Balanced :
      (rules : List RuleCheck) (p : Progress)
      → Balanced p
      → Balanced (foldl (check_rule context policy) p rules)
  foldl-Balanced [] p h = h
  foldl-Balanced (rc ∷ rules) p h =
      foldl-Balanced rules (check_rule context policy p rc) (check_rule-Balanced p rc h)

  integrity_gate-Balanced : Balanced (integrity_gate context)
  unfolding integrity_gate worst demanded severity string_eq
  integrity_gate-Balanced = ground arith

  -- The severity of the decision is the greatest severity that any reported result asks for: a
  -- failed rule asks for its configured action, a failed `reject_revoked_models` for revocation,
  -- and any other result for nothing.
  pub severity-evaluate :
      (id now : String)
      → severity (evaluate context policy id now).decision
        ≡ worst (evaluate context policy id now).rule_results
  unfolding evaluate
  severity-evaluate id now =
      foldl-Balanced rule_checks (integrity_gate context) integrity_gate-Balanced
