-- ===== src/Admission/Trail.antt =====
-- The audit trail that `admit` of src/modelguard/admission.py leaves.
use modelguard.Base.{Bool, String, ◌≡◌, ◌≢◌, refl, ◌⊎◌, some, List, []}
use modelguard.Base.Bytes.{Bytes}
use modelguard.Base.Result.{Result, ok, err, ◌>>=◌}
use modelguard.Exceptions.{Exception}
use modelguard.Audit.Chain.{ChainEntry, LogFile, Disk, lines_of, read_all_entries, verify_chain}
use modelguard.Audit.Chain.Reading.{EndsLine}
use modelguard.Audit.Chain.Failing.{read_after, append_on-read_after}
use modelguard.Audit.Log.{to_record, record_event}
use modelguard.Signing.Schemes.{Cryptography}
use modelguard.Sdk.Verification.{ModelGuard}
use modelguard.Sdk.PolicyCheck.{Site}
use modelguard.Admission.{
  AdmissionReason, AdmissionDecision, AdmissionRequest, settle, event_of, finish, judge, admit,
}

-- The log is the one that recording left, whatever became of the decision.
settle-log :
    (d : AdmissionDecision) (r : Result Exception ChainEntry) (log : LogFile)
    → (settle d (r, log)).1 ≡ some log
unfolding settle
settle-log d (ok _) log = refl
settle-log d (err e) log = refl

-- What `admit` leaves of an accepted audit log that holds an entry or no line at all, and whose last
-- line is ended, whatever it decides. If the write of the record completes, or fails once the text of
-- the record is written, the log reads as before with an entry at its end that holds the record of the
-- decision, and is accepted. If the write fails before any text, the log reads as before, and is
-- accepted. If it fails within the text, the log can be neither read nor verified any more.
pub admit-verify_chain :
    (summary : List AdmissionReason → String) (sha256 : Bytes → String)
    (fnmatch : String → String → Bool) (crypto : Cryptography) (guard : ModelGuard) (site : Site)
    (disk : Disk) (log : LogFile) (es : List ChainEntry) (r : AdmissionRequest)
    → read_all_entries log ≡ ok es
    → verify_chain sha256 log ≡ ok tt
    → (es ≢ []) ⊎ (lines_of log ≡ [])
    → EndsLine log
    → (e : ChainEntry) × (log' : LogFile) × (e.entry_record
        ≡ to_record (
            event_of summary r.actor r.timestamp
              (judge summary sha256 fnmatch crypto guard site r)))
      × ((admit summary sha256 fnmatch crypto guard site disk (some log) r).1 ≡ some log')
      × (read_all_entries log' ≡ read_after disk es e)
      × (verify_chain sha256 log' ≡ (read_after disk es e >>= λ _. ok tt))
unfolding admit finish record_event
admit-verify_chain summary sha256 fnmatch crypto guard site disk log es r read accepted used ended =
    let d = judge summary sha256 fnmatch crypto guard site r in
    let left = record_event sha256 disk log (event_of summary r.actor r.timestamp d) in
    let (e, of_event, reads, verifies) =
      append_on-read_after sha256 disk log (to_record (event_of summary r.actor r.timestamp d)) es
        read accepted used ended in
    (e, left.1, of_event, settle-log d left.0 left.1, reads, verifies)
