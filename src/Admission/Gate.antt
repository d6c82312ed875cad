-- ===== src/Admission/Gate.antt =====
-- When `admit` of src/modelguard/admission.py admits an artifact, and what is then established of it.
use mathlib.Core.Path.{subst}
use mathlib.Core.Option.{some-injective}
use modelguard.Base.{String, ◌≡◌, ◌≢◌, refl, sym, ◌↔◌, Bool, true, Option, none, some, List}
use modelguard.Base.{is_empty, arith}
use modelguard.Base.Bytes.{Bytes}
use modelguard.Base.Result.{Result, ok, err, ok-injective}
use modelguard.Exceptions.{Exception}
use modelguard.Audit.Chain.{ChainEntry, LogFile, Disk}
use modelguard.Audit.Log.{record_event}
use modelguard.Policy.Models.{is_allowed}
use modelguard.Signing.Schemes.{Cryptography}
use modelguard.Signing.TrustConfig.{TrustConfig}
use modelguard.Sdk.Verification.{ModelGuard}
use modelguard.Sdk.PolicyCheck.{PolicyCheck, Site, check_policy_detailed}
use modelguard.Admission.{
  AdmissionReason, AdmissionDecision, AdmissionRequest, objections, decide, event_of, finish, judge,
  admit, settle, decide_or_refuse, gate,
}

-- The three facts that an admission wants of a check.
abbrev pub Passes : PolicyCheck → Type 0
Passes check =
    (is_allowed check.decision.decision ≡ true)
    × (check.verification.digest_matches ≡ true)
    × (check.verification.signer_trusted ≡ some true)

objections-Passes : (check : PolicyCheck) → (is_empty (objections check) ≡ true) ↔ Passes check
unfolding objections
objections-Passes check = ground arith

settle-written :
    (d : AdmissionDecision) (r : Result Exception ChainEntry) (log : LogFile)
    → ((settle d (r, log)).0.admitted ≡ true)
      ↔ ((d.admitted ≡ true) × ((written : ChainEntry) × (r ≡ ok written)))
unfolding settle
settle-written d (ok written) log = (λ h. (h, (written, refl)), λ h. h.0)
settle-written d (err e) log = ground arith

decide_or_refuse-Passes :
    (correlation_id : String) (r : Result Exception PolicyCheck)
    → ((decide_or_refuse correlation_id r).admitted ≡ true)
      ↔ ((check : PolicyCheck) × (r ≡ ok check) × Passes check)
unfolding decide_or_refuse decide
decide_or_refuse-Passes correlation_id (ok check) = (
  λ h. (check, refl, (objections-Passes check).0 h),
  λ (c, e, passes). (objections-Passes check).1 (subst Passes (sym (ok-injective e)) passes),
)
decide_or_refuse-Passes correlation_id (err e) = ground arith

gate-Passes :
    (trust : Option TrustConfig) (correlation_id : String) (r : Result Exception PolicyCheck)
    → ((gate trust correlation_id r).admitted ≡ true)
      ↔ ((trust ≢ none) × ((check : PolicyCheck) × (r ≡ ok check) × Passes check))
unfolding gate
gate-Passes none correlation_id r = (λ h. absurd (cc), λ (n, _). absurd (n refl))
gate-Passes (some trust) correlation_id r = (
  λ h. (λ e. cc, (decide_or_refuse-Passes correlation_id r).0 h),
  λ (_, h). (decide_or_refuse-Passes correlation_id r).1 h,
)

module _ (summary : List AdmissionReason → String) (sha256 : Bytes → String) where
  -- The audit log, if one was requested, took the record of the decision.
  abbrev pub IsRecorded : Disk → Option LogFile → AdmissionRequest → AdmissionDecision → Type 0
  IsRecorded disk requested request d =
      (log : LogFile)
      → requested ≡ some log
      → (written : ChainEntry) × ((record_event sha256 disk log
            (event_of summary request.actor request.timestamp d)).0
          ≡ ok written)

  finish-IsRecorded :
      (disk : Disk) (requested : Option LogFile) (request : AdmissionRequest)
      (d : AdmissionDecision)
      → ((finish summary sha256 disk requested request d).0.admitted ≡ true)
        ↔ ((d.admitted ≡ true) × IsRecorded disk requested request d)
  unfolding finish
  finish-IsRecorded disk none request d = (λ h. (h, λ log e. cc), λ h. h.0)
  finish-IsRecorded disk (some log) request d =
      let attempted =
        settle-written d
          (record_event sha256 disk log (event_of summary request.actor request.timestamp d)).0
          (record_event sha256 disk log (event_of summary request.actor request.timestamp d)).1 in
      (
        λ h.
            let (admitted, written) = attempted.0 h in
            (admitted, λ l e. rw (← some-injective log l e) written),
        λ (admitted, recorded). attempted.1 (admitted, recorded log refl),
      )

  module _ (fnmatch : String → String → Bool) (crypto : Cryptography) (guard : ModelGuard)
      (site : Site) (r : AdmissionRequest) where
    abbrev pub checked : Result Exception PolicyCheck
    checked =
        check_policy_detailed fnmatch sha256 crypto guard site r.clock r.evaluation_id r.timestamp
          r.artifact_path r.mbom_path r.signature_path r.policy_path

    judge-Passes :
        ((judge summary sha256 fnmatch crypto guard site r).admitted ≡ true)
        ↔ ((guard.trust ≢ none) × ((check : PolicyCheck) × (checked ≡ ok check) × Passes check))
    unfolding judge
    judge-Passes = gate-Passes guard.trust r.correlation_id checked

    -- `admit` admits exactly when a trust configuration is set, the check returns, its policy decision
    -- allows a deployment, the digest matches, the signer is trusted, and the decision was written to
    -- the audit log if one was requested: any exception, a check that cannot run and a record that
    -- cannot be written all refuse.
    pub admit-admitted_iff :
        (disk : Disk) (requested : Option LogFile)
        → ((admit summary sha256 fnmatch crypto guard site disk requested r).0.admitted ≡ true) ↔ (
            (guard.trust ≢ none)
            × ((check : PolicyCheck) × (checked ≡ ok check) × Passes check)
            × IsRecorded disk requested r (judge summary sha256 fnmatch crypto guard site r))
    unfolding admit
    admit-admitted_iff disk requested =
        let f =
          finish-IsRecorded disk requested r (judge summary sha256 fnmatch crypto guard site r) in
        (
          λ h.
              let (admitted, recorded) = f.0 h in
              let (configured, passed) = judge-Passes.0 admitted in (configured, passed, recorded),
          λ (configured, passed, recorded). f.1 (judge-Passes.1 (configured, passed), recorded),
        )
