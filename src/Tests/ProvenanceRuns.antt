-- ===== src/Tests/ProvenanceRuns.antt =====
-- The lineage queries (src/modelguard/provenance/graph.py) on a log whose events form a cycle, and
-- events written to an empty log (src/modelguard/provenance/store.py, src/modelguard/audit/log.py).
use modelguard.Base.{
  String, ◌≡◌, ◌↔◌, refl, true, none, some, inr, List, [], ◌∷◌, Memᴰ, string_eq, contains,
}
use modelguard.Base.Result.{ok}
use modelguard.Audit.Chain.Reading.{EndsLine}
use modelguard.Audit.Chain.{
  ChainEntry, LogFile, written, nothing, completes, genesis_hash, read_all_entries, verify_chain,
  verify_entries,
}
use modelguard.Provenance.Models.{ProvenanceEvent, event_record, event_of_record}
use modelguard.JsonRecord.{annotated_text, get_member, find_member}
use modelguard.Audit.Records.{events_of, read_events}
use modelguard.Audit.Log.{
  AuditEvent, record_event, verify_log, audit_events, audit_events-record_event,
}
use modelguard.Tests.Samples.{digest_zero}
use modelguard.Provenance.Store.{all_events, record_provenance, all_events-record_provenance}
use modelguard.Provenance.Graph.{lineage, find_models_derived_from}
use modelguard.Provenance.Graph.Queries.{
  IsAncestry, IsDerived, lineage-IsAncestry, find_models_derived_from-IsDerived,
}

abbrev pub tuned : ProvenanceEvent
tuned = record {
  subject_id = "chat";
  relationship = "FINE_TUNED_FROM";
  object_id = "base";
  actor = "alice";
  evidence = "run 7";
  event_id = "e1";
  timestamp = "now";
}

abbrev pub back : ProvenanceEvent
back = record tuned {
  subject_id = "base";
  relationship = "DERIVED_FROM";
  object_id = "chat";
  event_id = "e2";
}

abbrev pub deployed : ProvenanceEvent
deployed = record tuned { relationship = "DEPLOYED_TO"; object_id = "prod/eu"; event_id = "e3" }

abbrev revoked_event : AuditEvent
revoked_event = record {
  event_type = "model.revoked";
  actor = "alice";
  subject = "chat@1";
  artifact_digest = none;
  result = "success";
  reason = some "leaked";
  correlation_id = "c1";
  timestamp = "now";
}

abbrev entry : ProvenanceEvent → ChainEntry
entry e = record {
  index = 0;
  entry_record = event_record e;
  record_hash = genesis_hash;
  prev_hash = genesis_hash;
}

abbrev pub store : LogFile
store = some (written (entry tuned) ∷ written (entry back) ∷ written (entry deployed) ∷ [], nothing)

pub store_events : all_events store ≡ ok (tuned ∷ back ∷ deployed ∷ [])
unfolding all_events events_of event_of_record event_record read_all_entries annotated_text
    get_member find_member string_eq
store_events = refl

lineage-IsAncestry_example :
    (result : List ProvenanceEvent) × (lineage store "chat" ≡ ok (some result))
    × ((e : ProvenanceEvent) → Memᴰ e result ↔ IsAncestry (tuned ∷ back ∷ deployed ∷ []) "chat" e)
lineage-IsAncestry_example =
    lineage-IsAncestry store "chat" (tuned ∷ back ∷ deployed ∷ []) store_events

find_models_derived_from-IsDerived_example :
    (derived : List String) × (find_models_derived_from store "base" ≡ ok (some derived))
    × ((x : String)
        → (contains derived x ≡ true) ↔ IsDerived (tuned ∷ back ∷ deployed ∷ []) "base" x)
find_models_derived_from-IsDerived_example =
    find_models_derived_from-IsDerived store "base" (tuned ∷ back ∷ deployed ∷ []) store_events

all_events-record_provenance_example :
    (log' : LogFile) × (record_provenance digest_zero completes none tuned ≡ (ok tuned, log'))
    × (all_events log' ≡ ok (tuned ∷ []))
    × (verify_chain digest_zero log' ≡ ok tt)
    × EndsLine log'
unfolding all_events events_of read_events verify_chain verify_entries read_all_entries
all_events-record_provenance_example =
    all_events-record_provenance digest_zero none tuned [] refl refl (inr refl) tt

audit_events-record_event_example :
    (e : ChainEntry) × (log' : LogFile) × (record_event digest_zero completes none revoked_event
      ≡ (ok e, log'))
    × (audit_events log' ≡ ok (revoked_event ∷ []))
    × (verify_log digest_zero log' ≡ ok tt)
    × EndsLine log'
unfolding audit_events events_of read_events verify_log verify_chain verify_entries read_all_entries
audit_events-record_event_example =
    audit_events-record_event digest_zero none revoked_event [] refl refl (inr refl) tt
