-- ===== src/Policy/Engine/Checks.antt =====
-- The evaluation context of src/modelguard/policy/engine.py, and the check of each rule.
use modelguard.Base.{ℕ, String, ◌<>◌, Bool, true, false, ◌||◌, not, Option, none, some, List, []}
use modelguard.Base.{◌∷◌, leb, truth, or_text, is_some, is_empty, if◌then◌else◌}
use modelguard.Manifest.{Manifest}
use modelguard.Mbom.{MlBom}
use modelguard.Policy.Models.{
  RuleConfig, Message, signature_found, no_signature, no_trust_roots, signer_is_trusted,
  signer_not_trusted, mbom_supplied, no_mbom, lineage_declared, no_lineage, license_declared,
  no_license, not_revoked, is_revoked, critical_not_scanned, high_not_scanned, critical_within,
  critical_exceeds, high_within, high_exceeds,
}

pub record PolicyEvaluationContext : Type 0 where
  pub subject : String
  pub signature_valid : Bool
  pub mbom_valid : Bool
  pub revoked : Bool
  pub has_license : Bool
  pub has_declared_lineage : Bool
  pub scan_performed : Bool
  pub critical_finding_count : ℕ
  pub high_finding_count : ℕ
  pub artifact_digest_matches : Option Bool
  pub signer_trusted : Option Bool

-- The facts that `build_context` takes by keyword.
pub record Facts : Type 0 where
  pub signature_valid : Bool
  pub mbom_valid : Bool
  pub revoked : Bool
  pub artifact_digest_matches : Bool
  pub scan_performed : Bool
  pub critical_finding_count : ℕ
  pub high_finding_count : ℕ
  pub signer_trusted : Option Bool

unfoldable pub build_context : Manifest → MlBom → Facts → PolicyEvaluationContext
unfolding truth or_text
build_context manifest mbom facts = record {
  subject = or_text manifest.model_id "unknown" <> "@" <> or_text manifest.version "unknown";
  signature_valid = facts.signature_valid;
  mbom_valid = facts.mbom_valid;
  revoked = facts.revoked;
  has_license = truth manifest.license || is_some mbom.properties.license;
  has_declared_lineage = not (is_empty mbom.properties.parent_models);
  scan_performed = facts.scan_performed;
  critical_finding_count = facts.critical_finding_count;
  high_finding_count = facts.high_finding_count;
  artifact_digest_matches = some facts.artifact_digest_matches;
  signer_trusted = facts.signer_trusted;
}

abbrev pub Check : Type 0
Check = PolicyEvaluationContext → RuleConfig → Bool × Message

-- An item of `_RULE_CHECKS`.
abbrev pub RuleCheck : Type 0
RuleCheck = String × Check

unfoldable pub check_require_valid_signature : Check
check_require_valid_signature ctx config =
    if ctx.signature_valid then (true, signature_found) else (false, no_signature)

unfoldable pub check_require_trusted_signer : Check
check_require_trusted_signer ctx config = elim ctx.signer_trusted [
  | none ↦ (false, no_trust_roots)
  | some trusted ↦ if trusted then (true, signer_is_trusted) else (false, signer_not_trusted)
]

unfoldable pub check_require_ml_bom : Check
check_require_ml_bom ctx config = if ctx.mbom_valid then (true, mbom_supplied) else (false, no_mbom)

unfoldable pub check_require_known_lineage : Check
check_require_known_lineage ctx config =
    if ctx.has_declared_lineage then (true, lineage_declared) else (false, no_lineage)

unfoldable pub check_require_license : Check
check_require_license ctx config =
    if ctx.has_license then (true, license_declared) else (false, no_license)

unfoldable pub check_reject_revoked_models : Check
check_reject_revoked_models ctx config =
    if not ctx.revoked then (true, not_revoked) else (false, is_revoked)

unfoldable pub check_max_critical_findings : Check
check_max_critical_findings ctx config =
    let count = ctx.critical_finding_count in
    if not ctx.scan_performed
    then (false, critical_not_scanned)
    else if leb count config.max_count
    then (true, critical_within count config.max_count)
    else (false, critical_exceeds count config.max_count)

unfoldable pub check_max_high_findings : Check
check_max_high_findings ctx config =
    let count = ctx.high_finding_count in
    if not ctx.scan_performed
    then (false, high_not_scanned)
    else if leb count config.max_count
    then (true, high_within count config.max_count)
    else (false, high_exceeds count config.max_count)

-- `_RULE_CHECKS`, in the order of the dictionary.
unfoldable pub rule_checks : List RuleCheck
unfolding check_require_valid_signature check_require_trusted_signer check_require_ml_bom
    check_require_known_lineage check_require_license check_reject_revoked_models
    check_max_critical_findings check_max_high_findings
rule_checks =
    ("require_valid_signature", check_require_valid_signature)
    ∷ ("require_trusted_signer", check_require_trusted_signer)
    ∷ ("require_ml_bom", check_require_ml_bom)
    ∷ ("require_known_lineage", check_require_known_lineage)
    ∷ ("require_license", check_require_license)
    ∷ ("reject_revoked_models", check_reject_revoked_models)
    ∷ ("max_critical_findings", check_max_critical_findings)
    ∷ ("max_high_findings", check_max_high_findings)
    ∷ []
