-- ===== src/Tests/IncidentRuns.antt =====
-- The query over the registry and the provenance events (src/modelguard/sdk.py): a revoked base model,
-- and a registry that refuses the name of an environment.

use modelguard.Base.{
  String, ◌≡◌, ◌↔◌, refl, none, some, List, [], ◌∷◌, Memᴰ, ◌==◌, string_eq, if◌then◌else◌,
}
use modelguard.Base.Result.{ok, err}
use modelguard.Exceptions.{Exception, invalid_identifier}
use modelguard.Registry.Models.{RevocationRecord}
use modelguard.Provenance.Models.{ProvenanceEvent}
use modelguard.Sdk.Incidents.{Registry, find_flagged}
use modelguard.Sdk.Incidents.Flagged.{
  Answers, IsTainted, find_flagged-IsTainted, find_flagged_refused,
}
use modelguard.Tests.ProvenanceRuns.{tuned, back, deployed, store, store_events}

abbrev revocation : RevocationRecord
revocation = record {
  model_id = "base";
  version = "1";
  revoked_by = "alice";
  reason = "leaked";
  revoked_at = "now";
}

abbrev registry : Registry
registry = record {
  list_versions = λ x. ok (if x == "base" then "1" ∷ [] else []);
  is_revoked = λ x v. ok (if x == "base" then some revocation else none);
}

abbrev strict : Registry
strict = record registry {
  list_versions = λ x.
      if x == "prod/eu"
      then err (invalid_identifier "identifier" x "must not contain path separators")
      else registry.list_versions x;
}

registry-Answers : (x : String) → Answers registry x
registry-Answers x = (_, refl, λ v m. (_, refl))

find_flagged-IsTainted_example :
    (flagged : List ProvenanceEvent) × (find_flagged registry store ≡ ok (some flagged))
    × ((e : ProvenanceEvent)
        → Memᴰ e flagged ↔ (
            Memᴰ e (tuned ∷ back ∷ deployed ∷ [])
            × (e.relationship ≡ "DEPLOYED_TO")
            × IsTainted registry (tuned ∷ back ∷ deployed ∷ []) e.subject_id))
find_flagged-IsTainted_example =
    find_flagged-IsTainted registry store (tuned ∷ back ∷ deployed ∷ []) store_events
      (λ x _. registry-Answers x)

find_flagged_refused_example : (other : Exception) × (find_flagged strict store ≡ err other)
unfolding string_eq
find_flagged_refused_example =
    find_flagged_refused strict store (tuned ∷ back ∷ deployed ∷ []) deployed
      (invalid_identifier "identifier" "prod/eu" "must not contain path separators") store_events
      (Memᴰ.tail (Memᴰ.tail (Memᴰ.head refl))) refl
