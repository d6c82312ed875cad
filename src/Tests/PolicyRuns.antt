-- ===== src/Tests/PolicyRuns.antt =====
-- The policy engine (src/modelguard/policy/engine.py) on a revoked and on a tampered artifact.
use text.Mathlib.TextEquality.{eq_iff}
use modelguard.Base.{
  arith, String, ◌≡◌, refl, true, false, some, none, [], ◌∷◌, string_eq, ◌≤◌, ◌≢◌, All, map, ◌++◌,
}
use modelguard.Policy.Models.{
  Decision, severity, is_allowed, RuleAction, RuleConfig, PolicyDocument,
}
use modelguard.Policy.Engine.{PolicyEvaluationContext, evaluate, rule_checks, integrity_gate}
use modelguard.Policy.Engine.Outcomes.{active, outcome, evaluate-rule_results}
use modelguard.Policy.Engine.Severity.{worst, severity-evaluate}
use modelguard.Policy.Engine.Guarantees.{
  Lenient, tampered_is_denied, revoked_is_revoked, allowed_is_earned, evaluate-active,
}

abbrev sound : PolicyEvaluationContext
sound = record {
  subject = "m@1";
  signature_valid = true;
  mbom_valid = true;
  revoked = false;
  has_license = false;
  has_declared_lineage = true;
  scan_performed = true;
  critical_finding_count = 0;
  high_finding_count = 3;
  artifact_digest_matches = some true;
  signer_trusted = some true;
}

abbrev tampered : PolicyEvaluationContext
tampered = record sound { artifact_digest_matches = some false }

abbrev pub withdrawn : PolicyEvaluationContext
withdrawn = record sound { revoked = true }

abbrev warn_only : RuleConfig
warn_only = record { enabled = true; on_fail = RuleAction.warn; max_count = 2 }

abbrev review_first : RuleConfig
review_first = record { enabled = true; on_fail = RuleAction.review; max_count = 0 }

abbrev production : PolicyDocument
production = record {
  version = "1";
  name = "production";
  environment = none;
  rules = ("reject_revoked_models", warn_only) ∷ ("max_high_findings", warn_only) ∷ [];
}

abbrev strict : PolicyDocument
strict = record production { rules = ("require_license", review_first) ∷ production.rules }

abbrev disabled_rule : PolicyDocument
disabled_rule = record production {
  rules = ("require_license", record review_first { enabled = false }) ∷ production.rules;
}

warns : (evaluate sound production "id" "now").decision ≡ Decision.allow_with_warnings
unfolding evaluate string_eq
warns = refl

reviews : (evaluate sound strict "id" "now").decision ≡ Decision.review_required
unfolding evaluate string_eq
reviews = refl

severity-evaluate_example :
    severity (evaluate sound strict "id" "now").decision
    ≡ worst (evaluate sound strict "id" "now").rule_results
severity-evaluate_example = severity-evaluate sound strict "id" "now"

evaluate-rule_results_example :
    (evaluate tampered strict "id" "now").rule_results
    ≡ (integrity_gate tampered).results ++ map (outcome tampered strict) rule_checks
evaluate-rule_results_example = evaluate-rule_results tampered strict "id" "now"

tampered_is_denied_example :
    (4 ≤ severity (evaluate tampered production "id" "now").decision)
    × (is_allowed (evaluate tampered production "id" "now").decision ≡ false)
tampered_is_denied_example = tampered_is_denied tampered production "id" "now" refl

revoked_is_revoked_example : (evaluate withdrawn production "id" "now").decision ≡ Decision.revoked
unfolding active string_eq
revoked_is_revoked_example = revoked_is_revoked withdrawn production "id" "now" warn_only refl refl

allowed_is_earned_example :
    (sound.artifact_digest_matches ≢ some false) × All (Lenient sound production) rule_checks
unfolding evaluate string_eq is_allowed
allowed_is_earned_example = allowed_is_earned sound production "id" "now" refl

same_active : (name : String) → active production name ≡ active disabled_rule name
unfolding active
same_active name = ground (
  arith,
  eq_iff "require_license" "reject_revoked_models",
  eq_iff "require_license" "max_high_findings",
)

evaluate-active_example :
    ((evaluate sound production "id" "now").decision
      ≡ (evaluate sound disabled_rule "id" "now").decision)
    × ((evaluate sound production "id" "now").rule_results
        ≡ (evaluate sound disabled_rule "id" "now").rule_results)
evaluate-active_example = evaluate-active sound production disabled_rule "id" "now" same_active
