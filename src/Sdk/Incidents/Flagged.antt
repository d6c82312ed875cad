-- ===== src/Sdk/Incidents/Flagged.antt =====
-- The deployments that the query over the registry and the provenance events flags.
use mathlib.Core.Path.{subst}
use mathlib.Core.Logic.{⊎_elim}
use mathlib.Core.List.Memᴰ
use modelguard.Base.{
  String, ◌≡◌, refl, sym, ap, ◌∙◌, ◌↔◌, ◌⊎◌, inl, inr, Bool, true, false, Option, none, some, List,
  [], ◌∷◌, Memᴰ, arith,
}
use modelguard.Base.{string_eq, contains}
use modelguard.Base.Result.{ok, err, ok-injective, raises_after, raises_first}
use modelguard.Exceptions.{Exception}
use modelguard.Audit.Chain.{LogFile}
use modelguard.Registry.Models.{RevocationRecord}
use modelguard.Provenance.Models.{ProvenanceEvent}
use modelguard.Provenance.Store.{all_events}
use modelguard.Provenance.Graph.Queries.{
  IsDerived, IsAffected, find_deployments_using_revoked_model-IsAffected,
}
use modelguard.Sdk.Incidents.{
  Registry, any_revoked, check_candidate, add_if, revoked_ids, find_flagged,
}

module _ (registry : Registry) where
  -- A version of the identifier is registered and revoked.
  abbrev pub IsWithdrawn : String → Type 0
  IsWithdrawn x =
      (versions : List String) × (v : String) × (r : RevocationRecord) × (registry.list_versions x
        ≡ ok versions)
      × Memᴰ v versions
      × (registry.is_revoked x v ≡ ok (some r))

  -- The registry answers for the identifier and all its versions.
  abbrev pub Answers : String → Type 0
  Answers x =
      (versions : List String) × (registry.list_versions x ≡ ok versions)
      × ((v : String)
          → Memᴰ v versions
          → (o : Option RevocationRecord) × (registry.is_revoked x v ≡ ok o))

  abbrev HasRevoked : String → List String → Type 0
  HasRevoked x versions =
      (v : String) × (r : RevocationRecord) × Memᴰ v versions
      × (registry.is_revoked x v ≡ ok (some r))

  any_revoked-HasRevoked :
      (x : String) (versions : List String)
      → ((v : String)
          → Memᴰ v versions
          → (o : Option RevocationRecord) × (registry.is_revoked x v ≡ ok o))
      → (b : Bool) × (any_revoked registry x versions ≡ ok b) × ((b ≡ true) ↔ HasRevoked x versions)
  unfolding any_revoked
  any_revoked-HasRevoked x [] answers =
      (false, refl, (λ h. absurd (cc h), λ (v, r, m, _). absurd (Memᴰ.not-nil m)))
  any_revoked-HasRevoked x (v ∷ versions) answers =
      let (b, ends, found) = any_revoked-HasRevoked x versions (λ w m. answers w (Memᴰ.tail m)) in
      let (o, answer) = answers v (Memᴰ.head refl) in by_answer o answer b ends found
    where
      by_answer :
          (o : Option RevocationRecord)
          → registry.is_revoked x v ≡ ok o
          → (b : Bool) → any_revoked registry x versions ≡ ok b
          → ((b ≡ true) ↔ HasRevoked x versions)
          → (c : Bool) × (any_revoked registry x (v ∷ versions) ≡ ok c)
            × ((c ≡ true) ↔ HasRevoked x (v ∷ versions))
      by_answer (some r) answer b ends found = (
        true,
        simp (answer, ends, any_revoked) refl,
        (λ _. (v, r, Memᴰ.head refl, answer), λ _. refl),
      )
      by_answer none answer b ends found = (
        b,
        simp (answer, ends, any_revoked) refl,
        (
          λ h. let (w, r, m, e) = found.0 h in (w, r, Memᴰ.tail m, e),
          λ (w, r, m, e).
              ⊎_elim
                (λ same. absurd (
                  let k = subst (λ y. registry.is_revoked x y ≡ ok (some r)) same e in
                  cc (k, answer)))
                (λ later. found.1 (w, r, later, e)) (Memᴰ.cases_cons m),
        ),
      )

  check_candidate-IsWithdrawn :
      (x : String)
      → Answers x
      → (b : Bool) × (check_candidate registry x ≡ ok b) × ((b ≡ true) ↔ IsWithdrawn x)
  unfolding check_candidate
  check_candidate-IsWithdrawn x (versions, listed, answers) =
      let (b, ends, found) = any_revoked-HasRevoked x versions answers in
      (
        b,
        simp (listed, ends) refl,
        (
          λ h. let (v, r, m, e) = found.0 h in (versions, v, r, listed, m, e),
          λ (vs, v, r, l, m, e).
              found.1 (v, r, subst (Memᴰ v) (ok-injective (sym l ∙ listed)) m, e),
        ),
      )

  -- An identifier that is an end of an event.
  abbrev pub Occurs : List ProvenanceEvent → String → Type 0
  Occurs events x = (e : ProvenanceEvent) × Memᴰ e events × ((e.subject_id ≡ x) ⊎ (e.object_id ≡ x))

  contains-add_if :
      (b : Bool) (x y : String) (ys : List String)
      → (contains (add_if registry b y ys) x ≡ true)
        ↔ (((b ≡ true) × (x ≡ y)) ⊎ (contains ys x ≡ true))
  contains-add_if b x y ys = ground arith

  Occurs-cons :
      (event : ProvenanceEvent) (events : List ProvenanceEvent) (x : String)
      → Occurs (event ∷ events) x
        ↔ ((x ≡ event.subject_id) ⊎ ((x ≡ event.object_id) ⊎ Occurs events x))
  Occurs-cons event events x = (
    λ (e, m, o).
        ⊎_elim
          (λ same.
            ⊎_elim (λ s. inl (sym s ∙ ap (λ e. e.subject_id) same))
              (λ s. inr (inl (sym s ∙ ap (λ e. e.object_id) same))) o)
          (λ later. inr (inr (e, later, o))) (Memᴰ.cases_cons m),
    ⊎_elim (λ e. (event, Memᴰ.head refl, inl (sym e)))
        (⊎_elim (λ e. (event, Memᴰ.head refl, inr (sym e))) (λ (e, m, o). (e, Memᴰ.tail m, o))),
  )

  revoked_ids-IsWithdrawn :
      (events : List ProvenanceEvent)
      → ((x : String) → Occurs events x → Answers x)
      → (ids : List String) × (revoked_ids registry events ≡ ok ids)
        × ((x : String) → (contains ids x ≡ true) ↔ (Occurs events x × IsWithdrawn x))
  unfolding revoked_ids
  revoked_ids-IsWithdrawn [] answers =
      ([], refl, λ x. (λ h. absurd (cc h), λ ((e, m, _), _). absurd (Memᴰ.not-nil m)))
  revoked_ids-IsWithdrawn (event ∷ events) answers =
      let (b, at_b, subject) =
        check_candidate-IsWithdrawn event.subject_id
          (answers event.subject_id (event, Memᴰ.head refl, inl refl)) in
      let (c, at_c, object) =
        check_candidate-IsWithdrawn event.object_id
          (answers event.object_id (event, Memᴰ.head refl, inr refl)) in
      let (ids, at_ids, found) =
        revoked_ids-IsWithdrawn events (λ x (e, m, o). answers x (e, Memᴰ.tail m, o)) in
      (
        add_if registry b event.subject_id (add_if registry c event.object_id ids),
        simp (at_b, at_c, at_ids) refl,
        λ x.
            let outer =
              contains-add_if b x event.subject_id (add_if registry c event.object_id ids) in
            let inner = contains-add_if c x event.object_id ids in
            let ends = Occurs-cons event events x in
            (
              λ h.
                  ⊎_elim (λ (at_b, e). (ends.1 (inl e), subst IsWithdrawn (sym e) (subject.0 at_b)))
                    (λ k.
                      ⊎_elim
                        (λ (at_c, e).
                          (ends.1 (inr (inl e)), subst IsWithdrawn (sym e) (object.0 at_c)))
                        (λ m. let (o, w) = (found x).0 m in (ends.1 (inr (inr o)), w)) (inner.0 k))
                    (outer.0 h),
              λ (o, w).
                  ⊎_elim (λ e. outer.1 (inl (subject.1 (subst IsWithdrawn e w), e)))
                    (⊎_elim
                      (λ e. outer.1 (inr (inner.1 (inl (object.1 (subst IsWithdrawn e w), e)))))
                      (λ later. outer.1 (inr (inner.1 (inr ((found x).1 (later, w)))))))
                    (ends.0 o),
            ),
      )

  -- A model that is withdrawn and occurs in the events, or is derived from such a model.
  abbrev pub IsTainted : List ProvenanceEvent → String → Type 0
  IsTainted events x =
      (Occurs events x × IsWithdrawn x)
      ⊎ ((r : String) × (Occurs events r × IsWithdrawn r) × IsDerived events r x)

  -- Where the events can be read and the registry answers for both ends of every event, the query
  -- returns, and flags exactly the `DEPLOYED_TO` events of a model that has a revoked version, or that
  -- is derived from a model of the events that has one.
  pub find_flagged-IsTainted :
      (store : LogFile) (events : List ProvenanceEvent)
      → all_events store ≡ ok events
      → ((x : String) → Occurs events x → Answers x)
      → (flagged : List ProvenanceEvent) × (find_flagged registry store ≡ ok (some flagged))
        × ((e : ProvenanceEvent)
            → Memᴰ e flagged
              ↔ (Memᴰ e events × (e.relationship ≡ "DEPLOYED_TO") × IsTainted events e.subject_id))
  unfolding find_flagged
  find_flagged-IsTainted store events read answers =
      let (ids, at_ids, found) = revoked_ids-IsWithdrawn events answers in
      let (flagged, ends, exact) =
        find_deployments_using_revoked_model-IsAffected store ids events read in
      let widened : (x : String) → IsAffected events ids x ↔ IsTainted events x = λ x. (
        ⊎_elim (λ h. inl ((found x).0 h)) (λ (r, h, d). inr (r, (found r).0 h, d)),
        ⊎_elim (λ h. inl ((found x).1 h)) (λ (r, h, d). inr (r, (found r).1 h, d)),
      ) in
      (
        flagged,
        simp (read, at_ids) ends,
        λ e. (
          λ m. let (k, d, a) = (exact e).0 m in (k, d, (widened e.subject_id).0 a),
          λ (k, d, t). (exact e).1 (k, d, (widened e.subject_id).1 t),
        ),
      )

  check_candidate_refused :
      (x : String) (failure : Exception)
      → registry.list_versions x ≡ err failure
      → check_candidate registry x ≡ err failure
  unfolding check_candidate
  check_candidate_refused x failure h = simp h refl

  revoked_ids_refused :
      (events : List ProvenanceEvent) (event : ProvenanceEvent) (failure : Exception)
      → Memᴰ event events
      → registry.list_versions event.object_id ≡ err failure
      → (other : Exception) × (revoked_ids registry events ≡ err other)
  unfolding revoked_ids
  revoked_ids_refused [] event failure m h = absurd (Memᴰ.not-nil m)
  revoked_ids_refused (e ∷ events) event failure m h =
      raises_after (check_candidate registry e.subject_id) _ λ subject.
        ⊎_elim
          (λ same. raises_first (check_candidate registry e.object_id) _ failure (
            check_candidate_refused e.object_id failure
              (subst (λ x. registry.list_versions x.object_id ≡ err failure) same h)))
          (λ later. raises_after (check_candidate registry e.object_id) _ λ object.
            let (other, raised) = revoked_ids_refused events event failure later h in
            raises_first (revoked_ids registry events) _ other raised)
          (Memᴰ.cases_cons m)

  -- One event whose object the registry refuses as an identifier, as a dataset or an environment may
  -- be, makes the whole query raise, whatever the other events are.
  pub find_flagged_refused :
      (store : LogFile) (events : List ProvenanceEvent) (event : ProvenanceEvent)
      (failure : Exception)
      → all_events store ≡ ok events
      → Memᴰ event events
      → registry.list_versions event.object_id ≡ err failure
      → (other : Exception) × (find_flagged registry store ≡ err other)
  unfolding find_flagged
  find_flagged_refused store events event failure read m h =
      let (other, raised) = revoked_ids_refused events event failure m h in
      (other, simp (read, raised) refl)
