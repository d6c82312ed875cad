-- ===== src/Policy/Engine/Guarantees.antt =====
-- What no policy can switch off, and what an allowed decision means.
use Prim.Native.Nat.{max}
use mathlib.Core.Path.{fun_ext}
use modelguard.Base.{◌≤◌, ◌<◌, String, ◌≡◌, sym, ap, ◌∙◌, true, false, some}
use modelguard.Base.{List, [], ◌∷◌, map, arith, string_eq, All, ◌≢◌, ◌⊎◌}
use modelguard.Policy.Models.{
  Decision, severity, is_allowed, RuleAction, RuleConfig, PolicyDocument,
}
use modelguard.Policy.Engine.{
  PolicyEvaluationContext, RuleCheck, rule_checks, integrity_gate, evaluate,
  check_reject_revoked_models,
}
use modelguard.Policy.Engine.Outcomes.{active, outcome, evaluate-rule_results}
use modelguard.Policy.Engine.Severity.{demanded, worst, worst-append, severity-evaluate}

severity-le : (d : Decision) → severity d ≤ 5
unfolding severity
severity-le d = ground arith

eq-revoked : (d : Decision) → 5 ≤ severity d → d ≡ Decision.revoked
unfolding severity
eq-revoked d h = ground arith

not-allowed : (d : Decision) → 2 ≤ severity d → is_allowed d ≡ false
unfolding severity is_allowed
not-allowed d h = ground arith

severity-lt-two : (d : Decision) → is_allowed d ≡ true → severity d < 2
unfolding severity is_allowed
severity-lt-two d h = ground arith

gate_of_tampered :
    (context : PolicyEvaluationContext)
    → context.artifact_digest_matches ≡ some false
    → worst (integrity_gate context).results ≡ 4
unfolding integrity_gate worst demanded severity string_eq
gate_of_tampered context h = ground arith

module _ (context : PolicyEvaluationContext) (policy : PolicyDocument) where
  -- The rule either does not take part, passes, or only warns.
  abbrev pub Lenient : RuleCheck → Type 0
  Lenient (rule_name, check) =
      (config : RuleConfig)
      → active policy rule_name ≡ some config
      → ((check context config).0 ≡ true)
        ⊎ ((config.on_fail ≡ RuleAction.warn) × (rule_name ≢ "reject_revoked_models"))

  outcome-Lenient :
      (rc : RuleCheck) → severity (demanded (outcome context policy rc)) < 2 → Lenient rc
  unfolding outcome demanded severity
  outcome-Lenient (rule_name, check) h config on = ground arith

  worst-Lenient :
      (rules : List RuleCheck) → worst (map (outcome context policy) rules) < 2 → All Lenient rules
  unfolding worst
  worst-Lenient [] h = tt
  worst-Lenient (rc ∷ rules) h =
      (outcome-Lenient rc (omega arith), worst-Lenient rules (omega arith))

  outcome_of_revoked :
      (config : RuleConfig)
      → active policy "reject_revoked_models" ≡ some config
      → context.revoked ≡ true
      → severity
          (demanded (outcome context policy ("reject_revoked_models", check_reject_revoked_models)))
        ≡ 5
  unfolding outcome demanded severity check_reject_revoked_models
  outcome_of_revoked config on h = ground arith

  module _ (id now : String) where
    abbrev decided : Decision
    decided = (evaluate context policy id now).decision

    -- The severity of the decision, from the gate and the outcome of each rule.
    severity-decided :
        severity decided
        ≡ max
            (worst (integrity_gate context).results)
            (worst (map (outcome context policy) rule_checks))
    severity-decided =
        severity-evaluate context policy id now
        ∙ rw (evaluate-rule_results context policy id now) (worst-append _ _)

    -- An artifact whose digest differs from the signed one is at least denied, and not allowed,
    -- whatever the policy says.
    pub tampered_is_denied :
        context.artifact_digest_matches ≡ some false
        → (4 ≤ severity decided) × (is_allowed decided ≡ false)
    tampered_is_denied h =
        let at_least : 4 ≤ severity decided =
          omega (arith, severity-decided, gate_of_tampered context h) in
        (at_least, not-allowed decided (omega arith))

    -- A policy that enables `reject_revoked_models` gives REVOKED to a revoked model, whatever the
    -- rule's `on_fail` and whatever else fails.
    pub revoked_is_revoked :
        (config : RuleConfig)
        → active policy "reject_revoked_models" ≡ some config
        → context.revoked ≡ true
        → decided ≡ Decision.revoked
    unfolding rule_checks worst
    revoked_is_revoked config on h =
        eq-revoked decided (omega (arith, severity-decided, outcome_of_revoked config on h))

    -- If the decision allows a deployment, the digest was not found to differ, and every rule that
    -- the policy enables passed its check, or only warns and is not `reject_revoked_models`.
    pub allowed_is_earned :
        is_allowed decided ≡ true
        → (context.artifact_digest_matches ≢ some false) × All Lenient rule_checks
    allowed_is_earned h =
        let below : severity decided < 2 = severity-lt-two decided h in
        (
          λ e. absurd (omega (arith, tampered_is_denied e)),
          worst-Lenient rule_checks (omega (arith, severity-decided)),
        )

severity-injective : (d e : Decision) → severity d ≡ severity e → d ≡ e
unfolding severity
severity-injective d e h = ground arith

-- The decision and the reported results depend on a policy only through its enabled rules: a rule
-- that is disabled is as if it were absent, whatever else its configuration says.
pub evaluate-active :
    (context : PolicyEvaluationContext) (p q : PolicyDocument) (id now : String)
    → ((rule_name : String) → active p rule_name ≡ active q rule_name)
    → ((evaluate context p id now).decision ≡ (evaluate context q id now).decision)
      × ((evaluate context p id now).rule_results ≡ (evaluate context q id now).rule_results)
evaluate-active context p q id now h =
    let outcomes : outcome context p ≡ outcome context q =
      fun_ext (λ rc. unfold outcome in rw (h rc.0)) in
    let results : (evaluate context p id now).rule_results
        ≡ (evaluate context q id now).rule_results =
      evaluate-rule_results context p id now
      ∙ rw outcomes (sym (evaluate-rule_results context q id now)) in
    (
      severity-injective _ _ (
          severity-evaluate context p id now
          ∙ ap worst results
          ∙ sym (severity-evaluate context q id now)),
      results,
    )
