-- ===== src/Provenance/Graph/Queries.antt =====
-- What the lineage queries of src/modelguard/provenance/graph.py return, against paths of edges.
use mathlib.Core.Logic.{⊎_elim}
use mathlib.Core.Path.{subst}
use modelguard.Base.{
  suc, String, ◌≡◌, refl, sym, ◌∙◌, ◌↔◌, ◌⊎◌, inl, inr, Bool, true, ◌&&◌, ◌||◌, some, List, [], ◌∷◌,
  ◌++◌, Memᴰ, arith,
}
use modelguard.Base.{◌==◌, string_eq, contains, length, text_le, Memᴰ-select}
use modelguard.Base.Result.{ok}
use modelguard.Base.Sorting.{sorted, insert_sorted}
use modelguard.Audit.Chain.{LogFile}
use modelguard.Provenance.Models.{ProvenanceEvent, is_lineage}
use modelguard.Provenance.Store.{all_events}
use modelguard.Provenance.Walk.{Walk}
use modelguard.Provenance.Walk.Ends.{walk_returns}
use modelguard.Provenance.Walk.Reaches.{Followed, Beyond, walk_correct}
use modelguard.Provenance.Graph.{
  subject_of, object_of, lineage_walk, lineage, derived_walk, derived_from,
  find_models_derived_from, affected_by, deployments_of, find_deployments_using_revoked_model,
}

contains-insert_sorted :
    (le : String → String → Bool) (x y : String) (ys : List String)
    → contains (insert_sorted le x ys) y ≡ (y == x || contains ys y)
unfolding insert_sorted
contains-insert_sorted le x y [] = refl
contains-insert_sorted le x y (z ∷ ys) = ground (arith, contains-insert_sorted le x y ys)

contains-sorted :
    (le : String → String → Bool) (y : String) (xs : List String)
    → contains (sorted le xs) y ≡ contains xs y
unfolding sorted
contains-sorted le y [] = refl
contains-sorted le y (x ∷ xs) =
    ground (arith, contains-insert_sorted le x y (sorted le xs), contains-sorted le y xs)

contains-append :
    (x : String) (xs ys : List String) → contains (xs ++ ys) x ≡ (contains xs x || contains ys x)
contains-append x [] ys = refl
contains-append x (z ∷ xs) ys = ground (arith, contains-append x xs ys)

contains-cons :
    (x y : String) (ys : List String)
    → (contains (y ∷ ys) x ≡ true) ↔ ((x ≡ y) ⊎ (contains ys x ≡ true))
contains-cons x y ys = ground arith

contains-either :
    (x : String) (xs ys : List String)
    → (contains (xs ++ ys) x ≡ true) ↔ ((contains xs x ≡ true) ⊎ (contains ys x ≡ true))
contains-either x xs ys = ground (arith, contains-append x xs ys)

both_iff : (a b : Bool) → (a && b ≡ true) ↔ ((a ≡ true) × (b ≡ true))
both_iff a b = ground arith

deployed_iff :
    (e : ProvenanceEvent)
    → (e.relationship == "DEPLOYED_TO" ≡ true) ↔ (e.relationship ≡ "DEPLOYED_TO")
deployed_iff e = ground arith

module _ (events : List ProvenanceEvent) where
  -- The lineage edges that can be reached upwards from a model, and what is derived from one.
  abbrev pub IsAncestry : String → ProvenanceEvent → Type 0
  IsAncestry model_id e = Followed subject_of object_of is_lineage events model_id e

  abbrev pub IsDerived : String → String → Type 0
  IsDerived base_model_id x = Beyond object_of subject_of is_lineage events base_model_id x

  derived_from-IsDerived :
      (base_model_id : String)
      → (derived : List String) × (derived_from events base_model_id ≡ some derived)
        × ((x : String) → (contains derived x ≡ true) ↔ IsDerived base_model_id x)
  unfolding derived_from derived_walk
  derived_from-IsDerived base_model_id =
      let (w, ends) =
        walk_returns object_of subject_of is_lineage events
          (record { visited = []; frontier = base_model_id ∷ []; result = [] }) refl in
      let (_, met) =
        walk_correct object_of subject_of is_lineage events base_model_id [] (λ x h. cc)
          (suc (length events)) w ends in
      (
        sorted text_le w.visited,
        simp (ends, derived_from, derived_walk),
        λ x. (
          λ h.
              ⊎_elim (λ e. absurd (cc e)) (λ b. b)
                ((met x).0 (sym (contains-sorted text_le x w.visited) ∙ h)),
          λ b. contains-sorted text_le x w.visited ∙ (met x).1 (inr b),
        ),
      )

  lineage_walk-IsAncestry :
      (model_id : String)
      → (w : Walk ProvenanceEvent) × (lineage_walk events model_id ≡ some w)
        × ((e : ProvenanceEvent) → Memᴰ e w.result ↔ IsAncestry model_id e)
  unfolding lineage_walk
  lineage_walk-IsAncestry model_id =
      let (w, ends) =
        walk_returns subject_of object_of is_lineage events
          (record { visited = model_id ∷ []; frontier = model_id ∷ []; result = [] }) refl in
      let (noted, _) =
        walk_correct subject_of object_of is_lineage events model_id (model_id ∷ [])
          (λ x h. ground (arith, h)) (suc (length events)) w ends in
      (w, ends, noted)

  -- A model that is revoked, or derived from a revoked one.
  abbrev pub IsAffected : List String → String → Type 0
  IsAffected revoked x =
      (contains revoked x ≡ true) ⊎ ((r : String) × (contains revoked r ≡ true) × IsDerived r x)

  affected_by-IsAffected :
      (revoked affected : List String)
      → (all : List String) × (affected_by events revoked affected ≡ some all)
        × ((x : String)
            → (contains all x ≡ true) ↔ (
                (contains affected x ≡ true)
                ⊎ ((r : String) × (contains revoked r ≡ true) × IsDerived r x)))
  unfolding affected_by
  affected_by-IsAffected [] affected =
      (affected, refl, λ x. (inl, ⊎_elim (λ h. h) (λ (r, e, _). cc)))
  affected_by-IsAffected (r ∷ revoked) affected =
      let (derived, at_derived, met) = derived_from-IsDerived r in
      let (all, at_all, rest) = affected_by-IsAffected revoked (affected ++ derived) in
      (
        all,
        simp (at_derived, affected_by) at_all,
        λ x. (
          λ h.
              ⊎_elim
                (λ seen.
                  ⊎_elim (λ a. inl a)
                    (λ d. inr (r, (contains-cons r r revoked).1 (inl refl), (met x).0 d))
                    ((contains-either x affected derived).0 seen))
                (λ (q, at_q, d). inr (q, (contains-cons q r revoked).1 (inr at_q), d))
                ((rest x).0 h),
          ⊎_elim (λ a. (rest x).1 (inl ((contains-either x affected derived).1 (inl a))))
              (λ (q, at_q, d).
                ⊎_elim
                  (λ is_r. (rest x).1 (
                    inl (
                      (contains-either x affected derived).1
                        (inr ((met x).1 (subst (λ y. IsDerived y x) is_r d))))))
                  (λ later. (rest x).1 (inr (q, later, d))) ((contains-cons q r revoked).0 at_q)),
        ),
      )

-- Where the events can be read, `lineage` ends with exactly the lineage edges that can be followed
-- upwards from the model, cycles among the events included.
pub lineage-IsAncestry :
    (store : LogFile) (model_id : String) (events : List ProvenanceEvent)
    → all_events store ≡ ok events
    → (result : List ProvenanceEvent) × (lineage store model_id ≡ ok (some result))
      × ((e : ProvenanceEvent) → Memᴰ e result ↔ IsAncestry events model_id e)
unfolding lineage
lineage-IsAncestry store model_id events read =
    let (w, ends, noted) = lineage_walk-IsAncestry events model_id in
    (w.result, simp (read, ends), noted)

-- Where the events can be read, `find_models_derived_from` ends with exactly the identifiers that a
-- chain of lineage edges connects to the base model.
pub find_models_derived_from-IsDerived :
    (store : LogFile) (base_model_id : String) (events : List ProvenanceEvent)
    → all_events store ≡ ok events
    → (derived : List String) × (find_models_derived_from store base_model_id ≡ ok (some derived))
      × ((x : String) → (contains derived x ≡ true) ↔ IsDerived events base_model_id x)
unfolding find_models_derived_from
find_models_derived_from-IsDerived store base_model_id events read =
    let (derived, ends, met) = derived_from-IsDerived events base_model_id in
    (derived, simp (read, ends), met)

-- Where the events can be read, the deployments that are flagged are exactly the `DEPLOYED_TO` events of
-- a model that is revoked or is derived from a revoked one.
pub find_deployments_using_revoked_model-IsAffected :
    (store : LogFile) (revoked : List String) (events : List ProvenanceEvent)
    → all_events store ≡ ok events
    → (flagged : List ProvenanceEvent) × (find_deployments_using_revoked_model store revoked
        ≡ ok (some flagged))
      × ((e : ProvenanceEvent)
          → Memᴰ e flagged ↔ (
              Memᴰ e events
              × (e.relationship ≡ "DEPLOYED_TO")
              × IsAffected events revoked e.subject_id))
unfolding find_deployments_using_revoked_model deployments_of
find_deployments_using_revoked_model-IsAffected store revoked events read =
    let (all, ends, met) = affected_by-IsAffected events revoked revoked in
    (
      deployments_of events all,
      simp (read, ends),
      λ e.
          let picked =
            Memᴰ-select (λ e. e.relationship == "DEPLOYED_TO" && contains all e.subject_id) e
              events in
          let split = both_iff (e.relationship == "DEPLOYED_TO") (contains all e.subject_id) in
          (
            λ m.
                let (k, h) = picked.0 m in
                let (d, a) = split.0 h in (k, (deployed_iff e).0 d, (met e.subject_id).0 a),
            λ (k, d, a). picked.1 (k, split.1 ((deployed_iff e).1 d, (met e.subject_id).1 a)),
          ),
    )
