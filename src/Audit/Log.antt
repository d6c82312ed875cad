-- ===== src/Audit/Log.antt =====
-- src/modelguard/audit/log.py: audit events as records of a hash-chained log.
use modelguard.Base.{
  ◌≡◌, ◌≢◌, ◌⊎◌, refl, List, [], ◌∷◌, ◌++◌, string_eq, String, Option, none, some,
}
use modelguard.Base.Bytes.{Bytes}
use modelguard.Base.Json.{Json, text, null, object, end, member}
use modelguard.Base.Result.{Result, ok, ◌>>=◌}
use modelguard.Exceptions.{Exception}
use modelguard.JsonRecord.{annotated_text, optional_text, get_member, find_member}
use modelguard.Audit.Records.{read_events, append_entry-read_events}
use modelguard.Audit.Chain.{
  ChainEntry, LogFile, Disk, completes, append_on, settled, lines_of, verify_chain,
}
use modelguard.Audit.Chain.Reading.{EndsLine}

pub record AuditEvent : Type 0 where
  pub event_type : String
  pub actor : String
  pub subject : String
  pub artifact_digest : Option String
  pub result : String
  pub reason : Option String
  pub correlation_id : String
  pub timestamp : String

abbrev text_or_null : Option String → Json
text_or_null none = null
text_or_null (some s) = text s

-- `to_record`
unfoldable pub to_record : AuditEvent → Json
to_record e = object (
    member "event_type" (text e.event_type) (
      member "actor" (text e.actor) (
        member "subject" (text e.subject) (
          member "artifact_digest" (text_or_null e.artifact_digest) (
            member "result" (text e.result) (
              member "reason" (text_or_null e.reason) (
                member "correlation_id" (text e.correlation_id)
                  (member "timestamp" (text e.timestamp) end))))))))

-- `_entry_to_event`
unfoldable pub entry_to_event : Json → Result Exception AuditEvent
entry_to_event r = do
  event_type ← annotated_text r "event_type"
  actor ← annotated_text r "actor"
  subject ← annotated_text r "subject"
  artifact_digest ← optional_text r "artifact_digest"
  result ← annotated_text r "result"
  reason ← optional_text r "reason"
  correlation_id ← annotated_text r "correlation_id"
  timestamp ← annotated_text r "timestamp"
  ok (record {
    event_type = event_type;
    actor = actor;
    subject = subject;
    artifact_digest = artifact_digest;
    result = result;
    reason = reason;
    correlation_id = correlation_id;
    timestamp = timestamp;
  })

unfoldable pub audit_events : LogFile → Result Exception (List AuditEvent)
unfolding read_events
audit_events log = read_events entry_to_event log

fields_read_back :
    (d r : Option String) (e : AuditEvent)
    → let f = record e { artifact_digest = d; reason = r } in entry_to_event (to_record f) ≡ ok f
unfolding entry_to_event to_record annotated_text optional_text get_member find_member string_eq
fields_read_back none none e = refl
fields_read_back none (some r) e = refl
fields_read_back (some d) none e = refl
fields_read_back (some d) (some r) e = refl

-- Every audit event reads back from its record as it was.
pub entry_to_event-to_record : (e : AuditEvent) → entry_to_event (to_record e) ≡ ok e
entry_to_event-to_record e = fields_read_back e.artifact_digest e.reason e

module _ (sha256 : Bytes → String) where
  -- `LocalAuditLog.record`, with the file that it leaves. `disk` is what the operating system makes of
  -- the write.
  unfoldable pub record_event : Disk → LogFile → AuditEvent → Result Exception ChainEntry × LogFile
  unfolding append_on
  record_event disk log event = append_on sha256 disk log (to_record event)

  -- `LocalAuditLog.verify`
  unfoldable pub verify_log : LogFile → Result Exception (Unit {0})
  verify_log log = verify_chain sha256 log

  -- A log that is accepted, that holds an event or no line at all, and whose last line is ended, takes
  -- an event and is still accepted, where the write succeeds; the event is read back behind those that were in it.
  pub audit_events-record_event :
      (log : LogFile) (event : AuditEvent) (events : List AuditEvent)
      → audit_events log ≡ ok events
      → verify_log log ≡ ok tt
      → (events ≢ []) ⊎ (lines_of log ≡ [])
      → EndsLine log
      → (e : ChainEntry) × (log' : LogFile) × (record_event completes log event ≡ (ok e, log'))
        × (audit_events log' ≡ ok (events ++ event ∷ []))
        × (verify_log log' ≡ ok tt)
        × EndsLine log'
  unfolding record_event audit_events verify_log settled
  audit_events-record_event log event events h v c ended =
      let (e, log', appended, now, still, ended') =
        append_entry-read_events entry_to_event sha256 log (to_record event) event events
          (entry_to_event-to_record event) h v c ended in
      (e, log', rw appended refl, now, still, ended')
