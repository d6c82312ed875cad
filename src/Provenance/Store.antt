-- ===== src/Provenance/Store.antt =====
-- src/modelguard/provenance/store.py: events appended to a hash-chained log and read back.
use modelguard.Base.{◌≡◌, ◌≢◌, ◌⊎◌, refl, String, List, [], ◌∷◌, ◌++◌}
use modelguard.Base.Bytes.{Bytes}
use modelguard.Base.Result.{Result, ok, ◌>>=◌}
use modelguard.Exceptions.{Exception}
use modelguard.Audit.Chain.{LogFile, Disk, completes, settled, append_on, lines_of, verify_chain}
use modelguard.Audit.Chain.Reading.{EndsLine}
use modelguard.Audit.Records.{read_events, append_entry-read_events}
use modelguard.Provenance.Models.{
  ProvenanceEvent, event_record, event_of_record, event_of_record-event_record,
}

unfoldable pub all_events : LogFile → Result Exception (List ProvenanceEvent)
unfolding read_events
all_events log = read_events event_of_record log

module _ (sha256 : Bytes → String) where
  -- `record`: the event, and the log that the write left.
  unfoldable pub record_provenance :
      Disk → LogFile → ProvenanceEvent → Result Exception ProvenanceEvent × LogFile
  unfolding append_on
  record_provenance disk log event =
      let appended = append_on sha256 disk log (event_record event) in
      ((appended.0 >>= λ _. ok event), appended.1)

  -- A log that is accepted, that holds an event or no line at all, and whose last line is ended by a
  -- line break or is white space for the JSON parser, takes an event where the write completes, and is
  -- still accepted and ended; the event is read back behind those that were in it.
  pub all_events-record_provenance :
      (log : LogFile) (event : ProvenanceEvent) (events : List ProvenanceEvent)
      → all_events log ≡ ok events
      → verify_chain sha256 log ≡ ok tt
      → (events ≢ []) ⊎ (lines_of log ≡ [])
      → EndsLine log
      → (log' : LogFile) × (record_provenance completes log event ≡ (ok event, log'))
        × (all_events log' ≡ ok (events ++ event ∷ []))
        × (verify_chain sha256 log' ≡ ok tt)
        × EndsLine log'
  unfolding record_provenance all_events settled
  all_events-record_provenance log event events h v c ended =
      let (e, log', appended, now, still, end) =
        append_entry-read_events event_of_record sha256 log (event_record event) event events
          (event_of_record-event_record event) h v c ended in
      (log', rw appended refl, now, still, end)
