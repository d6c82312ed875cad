-- ===== src/Admission.antt =====
-- src/modelguard/admission.py: whether an artifact may be deployed, failing closed.
pub mod Gate
pub mod Evidence
pub mod Trail
use modelguard.Base.{
  ℕ, String, Bool, true, false, not, Option, none, some, List, [], ◌∷◌, ◌++◌, map,
}
use modelguard.Base.{is_empty, or_text, if◌then◌else◌}
use modelguard.Base.Bytes.{Bytes}
use modelguard.Base.Result.{Result, ok, err}
use modelguard.Exceptions.{Exception}
use modelguard.Audit.Chain.{ChainEntry, LogFile, Disk}
use modelguard.Audit.Log.{AuditEvent, record_event}
use modelguard.Policy.Models.{Decision, is_allowed, RuleResult, failed_rules, Message}
use modelguard.Signing.Schemes.{Cryptography}
use modelguard.Signing.TrustConfig.{TrustConfig}
use modelguard.Sdk.Verification.{VerificationResult, ModelGuard}
use modelguard.Sdk.PolicyCheck.{PolicyCheck, Site, check_policy_detailed}

pub data AdmissionReason : Type 0 where
  no_trust_root artifact_differs not_trusted : AdmissionReason
  check_failed unauditable : Exception → AdmissionReason
  policy_said : Decision → AdmissionReason
  rule_failed : String → Message → AdmissionReason

pub record AdmissionDecision : Type 0 where
  pub admitted : Bool
  pub reasons : List AdmissionReason
  pub correlation_id : String
  pub decision : Option Decision
  pub subject : Option String
  pub artifact_digest : Option String
  pub evaluation_id : Option String
  pub revocation_checked : Bool
  pub digest_from_cache : Bool
  pub audited : Bool
  pub error : Option Exception

-- The request, with the identifier and the times that the run takes from outside.
pub record AdmissionRequest : Type 0 where
  pub artifact_path : String
  pub mbom_path : String
  pub signature_path : String
  pub policy_path : String
  pub actor : String
  pub correlation_id : String
  pub evaluation_id : String
  pub timestamp : String
  pub clock : ℕ

-- A refusal without evidence.
unfoldable pub refusal : String → AdmissionReason → Option Exception → AdmissionDecision
refusal correlation_id reason error = record {
  admitted = false;
  reasons = reason ∷ [];
  correlation_id = correlation_id;
  decision = none;
  subject = none;
  artifact_digest = none;
  evaluation_id = none;
  revocation_checked = false;
  digest_from_cache = false;
  audited = false;
  error = error;
}

unfoldable pub explain_rule : RuleResult → AdmissionReason
explain_rule r = rule_failed r.rule r.message

-- `signer_trusted is True`
abbrev pub is_trusted : Option Bool → Bool
is_trusted (some trusted) = trusted
is_trusted none = false

-- The reasons against an artifact that was checked.
unfoldable pub objections : PolicyCheck → List AdmissionReason
unfolding explain_rule
objections check =
    (if is_allowed check.decision.decision
      then []
      else policy_said check.decision.decision ∷ map explain_rule (failed_rules check.decision))
    ++ (if check.verification.digest_matches then [] else artifact_differs ∷ [])
    ++ (if is_trusted check.verification.signer_trusted then [] else not_trusted ∷ [])

unfoldable pub decide : String → PolicyCheck → AdmissionDecision
unfolding objections
decide correlation_id check = record {
  admitted = is_empty (objections check);
  reasons = objections check;
  correlation_id = correlation_id;
  decision = some check.decision.decision;
  subject = some check.decision.subject;
  artifact_digest =
      if check.verification.digest_matches then some check.verification.artifact_digest else none;
  evaluation_id = some check.decision.evaluation_id;
  revocation_checked = check.verification.revocation_checked;
  digest_from_cache = check.verification.digest_from_cache;
  audited = false;
  error = none;
}

-- `summary` is the text of the reasons, cut at 500 characters.
unfoldable pub event_of :
    (List AdmissionReason → String) → String → String → AdmissionDecision → AuditEvent
event_of summary actor timestamp d = record {
  event_type = "deployment.admission";
  actor = actor;
  subject = or_text d.subject "unknown";
  artifact_digest = d.artifact_digest;
  result = if d.admitted then "success" else "failure";
  reason = some (if is_empty d.reasons then "admitted" else summary d.reasons);
  correlation_id = d.correlation_id;
  timestamp = timestamp;
}

-- The `try` statement of `_finish`, by what the write of the record did and left.
unfoldable pub settle :
    AdmissionDecision → Result Exception ChainEntry × LogFile → AdmissionDecision × Option LogFile
settle d (ok _, log) = (record d { audited = true }, some log)
settle d (err e, log) = (
  record d {
    admitted = false;
    reasons = d.reasons ++ unauditable e ∷ [];
    audited = false;
    error = some e;
  },
  some log,
)

-- The `try` statement of `admit`, by what the check did.
unfoldable pub decide_or_refuse : String → Result Exception PolicyCheck → AdmissionDecision
unfolding decide refusal
decide_or_refuse correlation_id (ok check) = decide correlation_id check
decide_or_refuse correlation_id (err e) = refusal correlation_id (check_failed e) (some e)

-- Without a trust configuration the check is not run.
unfoldable pub gate : Option TrustConfig → String → Result Exception PolicyCheck → AdmissionDecision
unfolding decide_or_refuse refusal
gate none correlation_id checked = refusal correlation_id no_trust_root none
gate (some _) correlation_id checked = decide_or_refuse correlation_id checked

module _ (summary : List AdmissionReason → String) (sha256 : Bytes → String) where
  -- `_finish`. Of the log it is given what the write does, and the file; `none` where no
  -- audit was requested.
  unfoldable pub finish :
      Disk
      → Option LogFile
      → AdmissionRequest
      → AdmissionDecision
      → AdmissionDecision × Option LogFile
  unfolding event_of settle
  finish disk none request d = (d, none)
  finish disk (some log) request d =
      settle d (record_event sha256 disk log (event_of summary request.actor request.timestamp d))

  module _ (fnmatch : String → String → Bool) (crypto : Cryptography) where
    -- The decision before `_finish`.
    unfoldable pub judge : ModelGuard → Site → AdmissionRequest → AdmissionDecision
    unfolding gate
    judge guard site r = gate guard.trust r.correlation_id (
        check_policy_detailed fnmatch sha256 crypto guard site r.clock r.evaluation_id r.timestamp
          r.artifact_path r.mbom_path r.signature_path r.policy_path)

    unfoldable pub admit :
        ModelGuard
        → Site
        → Disk
        → Option LogFile
        → AdmissionRequest
        → AdmissionDecision × Option LogFile
    unfolding judge finish
    admit guard site disk log request = finish disk log request (judge guard site request)
