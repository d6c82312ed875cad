-- ===== src/Sdk/Incidents.antt =====
-- `ModelGuard.find_deployments_using_revoked_model` of src/modelguard/sdk.py: the registry is asked
-- about both ends of every event, and the lineage is searched from what is revoked.
pub mod Flagged
use modelguard.Base.{String, Bool, true, false, ◌||◌, Option, none, some, List, [], ◌∷◌}
use modelguard.Base.{is_some, if◌then◌else◌}
use modelguard.Base.Result.{Result, ok, err, ◌>>=◌}
use modelguard.Exceptions.{Exception}
use modelguard.Audit.Chain.{LogFile}
use modelguard.Registry.Models.{RevocationRecord}
use modelguard.Provenance.Models.{ProvenanceEvent}
use modelguard.Provenance.Store.{all_events}
use modelguard.Provenance.Graph.{find_deployments_using_revoked_model}

-- What the query uses of the `Registry` protocol.
pub record Registry : Type 0 where
  pub list_versions : String → Result Exception (List String)
  pub is_revoked : String → String → Result Exception (Option RevocationRecord)

module _ (registry : Registry) where
  -- Whether the loop over the versions adds the identifier.
  unfoldable pub any_revoked : String → List String → Result Exception Bool
  any_revoked candidate_id [] = ok false
  any_revoked candidate_id (v ∷ versions) = do
    answer ← registry.is_revoked candidate_id v
    more ← any_revoked candidate_id versions
    ok (is_some answer || more)

  unfoldable pub check_candidate : String → Result Exception Bool
  unfolding any_revoked
  check_candidate candidate_id = do
    versions ← registry.list_versions candidate_id
    any_revoked candidate_id versions

  abbrev pub add_if : Bool → String → List String → List String
  add_if test x xs = if test then x ∷ xs else xs

  -- The loop that collects `revoked_ids`.
  unfoldable pub revoked_ids : List ProvenanceEvent → Result Exception (List String)
  unfolding check_candidate
  revoked_ids [] = ok []
  revoked_ids (event ∷ events) = do
    subject ← check_candidate event.subject_id
    object ← check_candidate event.object_id
    more ← revoked_ids events
    ok (add_if subject event.subject_id (add_if object event.object_id more))

  unfoldable pub find_flagged : LogFile → Result Exception (Option (List ProvenanceEvent))
  unfolding revoked_ids
  find_flagged store = do
    events ← all_events store
    ids ← revoked_ids events
    find_deployments_using_revoked_model store ids
