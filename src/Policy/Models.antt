-- ===== src/Policy/Models.antt =====
-- src/modelguard/policy/models.py: decisions, rule configurations, policy documents and outcomes.
-- A message of the source is a value that names its text and carries what the text interpolates.
use modelguard.Base.{ℕ, String, Bool, true, false, ◌&&◌, not, Option, List, select}
use modelguard.Base.Dict.{Dict}

pub data Decision : Type 0 where
  allow allow_with_warnings review_required quarantine deny revoked : Decision

unfoldable pub severity : Decision → ℕ
severity Decision.allow = 0
severity Decision.allow_with_warnings = 1
severity Decision.review_required = 2
severity Decision.quarantine = 3
severity Decision.deny = 4
severity Decision.revoked = 5

unfoldable pub is_allowed : Decision → Bool
is_allowed Decision.allow = true
is_allowed Decision.allow_with_warnings = true
is_allowed _ = false

pub data RuleAction : Type 0 where
  warn review quarantine deny : RuleAction

unfoldable pub action_to_decision : RuleAction → Decision
action_to_decision RuleAction.warn = Decision.allow_with_warnings
action_to_decision RuleAction.review = Decision.review_required
action_to_decision RuleAction.quarantine = Decision.quarantine
action_to_decision RuleAction.deny = Decision.deny

-- `max_count` is an integer that the schema holds at 0 or more.
pub record RuleConfig : Type 0 where
  pub enabled : Bool
  pub on_fail : RuleAction
  pub max_count : ℕ

pub record PolicyDocument : Type 0 where
  pub version : String
  pub name : String
  pub environment : Option String
  pub rules : Dict String RuleConfig

pub data Message : Type 0 where
  not_configured digest_differs : Message
  signature_found no_signature : Message
  no_trust_roots signer_is_trusted signer_not_trusted : Message
  mbom_supplied no_mbom : Message
  lineage_declared no_lineage : Message
  license_declared no_license : Message
  not_revoked is_revoked : Message
  critical_not_scanned high_not_scanned : Message
  critical_within critical_exceeds high_within high_exceeds : ℕ → ℕ → Message

pub record RuleResult : Type 0 where
  pub rule : String
  pub enabled : Bool
  pub passed : Bool
  pub action : Option RuleAction
  pub message : Message

-- `evaluation_id` and `timestamp` come from outside, as a fresh identifier and the clock.
pub record PolicyDecisionResult : Type 0 where
  pub decision : Decision
  pub policy_name : String
  pub policy_version : String
  pub subject : String
  pub rule_results : List RuleResult
  pub evaluation_id : String
  pub timestamp : String

unfoldable pub has_failed : RuleResult → Bool
has_failed r = r.enabled && not r.passed

unfoldable pub failed_rules : PolicyDecisionResult → List RuleResult
unfolding has_failed
failed_rules result = select has_failed result.rule_results
