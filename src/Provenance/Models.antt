-- ===== src/Provenance/Models.antt =====
-- src/modelguard/provenance/models.py: one edge of the lineage graph, and its record in a log.
use modelguard.Base.{String, Bool, List, [], ◌∷◌, ◌≡◌, refl}
use modelguard.Base.{contains, string_eq}
use modelguard.Base.Json.{Json, text, object, end, member}
use modelguard.Base.Result.{Result, ok, ◌>>=◌}
use modelguard.Exceptions.{Exception}
use modelguard.JsonRecord.{find_member, get_member, annotated_text}

-- A relationship is one of the literals of `RelationshipType`, which a read does not check.
pub record ProvenanceEvent : Type 0 where
  pub subject_id : String
  pub relationship : String
  pub object_id : String
  pub actor : String
  pub evidence : String
  pub event_id : String
  pub timestamp : String

abbrev pub lineage_relationships : List String
lineage_relationships =
    "DERIVED_FROM" ∷ "TRAINED_ON" ∷ "FINE_TUNED_FROM" ∷ "MERGED_FROM" ∷ "QUANTIZED_FROM"
    ∷ "EXPORTED_FROM" ∷ "PACKAGED_IN" ∷ []

-- `e.relationship in LINEAGE_RELATIONSHIPS`
unfoldable pub is_lineage : ProvenanceEvent → Bool
is_lineage e = contains lineage_relationships e.relationship

unfoldable pub event_record : ProvenanceEvent → Json
event_record e = object (
    member "event_id" (text e.event_id) (
      member "subject_id" (text e.subject_id) (
        member "relationship" (text e.relationship) (
          member "object_id" (text e.object_id) (
            member "actor" (text e.actor)
              (member "evidence" (text e.evidence) (member "timestamp" (text e.timestamp) end)))))))

-- `from_record`
unfoldable pub event_of_record : Json → Result Exception ProvenanceEvent
event_of_record r = do
  event_id ← annotated_text r "event_id"
  subject_id ← annotated_text r "subject_id"
  relationship ← annotated_text r "relationship"
  object_id ← annotated_text r "object_id"
  actor ← annotated_text r "actor"
  evidence ← annotated_text r "evidence"
  timestamp ← annotated_text r "timestamp"
  ok (record {
    subject_id = subject_id;
    relationship = relationship;
    object_id = object_id;
    actor = actor;
    evidence = evidence;
    event_id = event_id;
    timestamp = timestamp;
  })

-- Every event reads back from its record as it was.
pub event_of_record-event_record : (e : ProvenanceEvent) → event_of_record (event_record e) ≡ ok e
unfolding event_of_record event_record annotated_text get_member find_member string_eq
event_of_record-event_record e = refl
