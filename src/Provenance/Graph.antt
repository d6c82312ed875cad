-- ===== src/Provenance/Graph.antt =====
-- src/modelguard/provenance/graph.py: the lineage queries. The `while` loops run on one round more than
-- there are events; `none` stands for a loop that would need more.
pub mod Queries
use modelguard.Base.{
  ℕ, suc, String, Bool, true, false, ◌&&◌, Option, none, some, List, [], ◌∷◌, ◌++◌,
}
use modelguard.Base.{◌==◌, string_eq, contains, select, length, text_le, if◌then◌else◌}
use modelguard.Base.Result.{Result, ok, err, ◌>>=◌}
use modelguard.Base.Sorting.{sorted}
use modelguard.Exceptions.{Exception}
use modelguard.Audit.Chain.{LogFile}
use modelguard.Provenance.Models.{ProvenanceEvent, is_lineage}
use modelguard.Provenance.Store.{all_events}
use modelguard.Provenance.Walk.{Walk, walk}

abbrev pub subject_of : ProvenanceEvent → String
subject_of e = e.subject_id

abbrev pub object_of : ProvenanceEvent → String
object_of e = e.object_id

unfoldable pub parents : LogFile → String → Result Exception (List ProvenanceEvent)
unfolding is_lineage
parents store model_id = do
  events ← all_events store
  ok (select (λ e. e.subject_id == model_id && is_lineage e) events)

unfoldable pub children : LogFile → String → Result Exception (List ProvenanceEvent)
unfolding is_lineage
children store model_id = do
  events ← all_events store
  ok (select (λ e. e.object_id == model_id && is_lineage e) events)

-- The loop of `lineage`.
unfoldable pub lineage_walk : List ProvenanceEvent → String → Option (Walk ProvenanceEvent)
lineage_walk events model_id =
    walk subject_of object_of is_lineage (suc (length events)) events
      (record { visited = model_id ∷ []; frontier = model_id ∷ []; result = [] })

unfoldable pub lineage : LogFile → String → Result Exception (Option (List ProvenanceEvent))
unfolding lineage_walk
lineage store model_id = do
  events ← all_events store
  ok (elim (lineage_walk events model_id) [ none ↦ none | some w ↦ some w.result ])

-- The loop of `find_models_derived_from`, which does not keep the edges.
unfoldable pub derived_walk : List ProvenanceEvent → String → Option (Walk ProvenanceEvent)
derived_walk events base_model_id =
    walk object_of subject_of is_lineage (suc (length events)) events
      (record { visited = []; frontier = base_model_id ∷ []; result = [] })

unfoldable pub derived_from : List ProvenanceEvent → String → Option (List String)
derived_from events base_model_id = elim (derived_walk events base_model_id) [
  | none ↦ none
  | some w ↦ some (sorted text_le w.visited)
]

unfoldable pub find_models_derived_from : LogFile → String → Result Exception (Option (List String))
find_models_derived_from store base_model_id = do
  events ← all_events store
  ok (derived_from events base_model_id)

-- `affected.update(...)` for each revoked identifier; a set is a list here.
unfoldable pub affected_by : List ProvenanceEvent → List String → List String → Option (List String)
affected_by events [] affected = some affected
affected_by events (revoked_id ∷ revoked) affected = elim (derived_from events revoked_id) [
  | none ↦ none
  | some derived ↦ affected_by events revoked (affected ++ derived)
]

-- `DEPLOYED_TO` events of an affected model.
unfoldable pub deployments_of : List ProvenanceEvent → List String → List ProvenanceEvent
deployments_of events affected =
    select (λ e. e.relationship == "DEPLOYED_TO" && contains affected e.subject_id) events

unfoldable pub find_deployments_using_revoked_model :
    LogFile → List String → Result Exception (Option (List ProvenanceEvent))
unfolding deployments_of
find_deployments_using_revoked_model store revoked_model_ids = do
  events ← all_events store
  ok (elim (affected_by events revoked_model_ids revoked_model_ids) [
    | none ↦ none
    | some affected ↦ some (deployments_of events affected)
  ])
