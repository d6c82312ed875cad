-- ===== src/Provenance/Walk/Reaches.antt =====
-- What the lineage walk (src/modelguard/provenance/graph.py) has met and noted at its end.
use mathlib.Core.Path.{subst}
use mathlib.Core.Logic.{⊎_elim}
use mathlib.Core.List.Memᴰ
use modelguard.Base.{
  ℕ, String, ◌≡◌, refl, sym, ap, ◌∙◌, ◌↔◌, ◌⊎◌, inl, inr, Bool, true, ◌&&◌, some, List, [], ◌∷◌,
  Memᴰ, map, arith,
}
use modelguard.Base.{◌==◌, string_eq, contains, Memᴰ-select, Bool-cases}
use modelguard.Provenance.Walk.{Walk, leaving, expand, walk}
use modelguard.Provenance.Walk.Round.{visited-follow_all, frontier-follow_all, result-follow_all}
use modelguard.Provenance.Walk.Ends.{walk_rule}

Memᴰ-map :
    {A : Type 0} {B : Type 0} (f : A → B) (b : B) (xs : List A)
    → Memᴰ b (map f xs) ↔ ((a : A) × Memᴰ a xs × (f a ≡ b))
Memᴰ-map f b [] = (λ m. absurd (Memᴰ.not-nil m), λ (a, m, _). absurd (Memᴰ.not-nil m))
Memᴰ-map f b (x ∷ xs) = (
  λ m.
      ⊎_elim (λ e. (x, Memᴰ.head refl, sym e))
        (λ m. let (a, k, e) = (Memᴰ-map f b xs).0 m in (a, Memᴰ.tail k, e)) (Memᴰ.cases_cons m),
  λ (a, m, e).
      ⊎_elim (λ q. Memᴰ.head (sym e ∙ ap f q)) (λ k. Memᴰ.tail ((Memᴰ-map f b xs).1 (a, k, e)))
        (Memᴰ.cases_cons m),
)

module _ {E : Type 0} (origin target : E → String) (is_edge : E → Bool) (events : List E)
    (start : String) where
  -- The identifiers that edges lead to from the start, itself among them.
  pub data Leads : String → Type 0 where
    here : Leads start
    step : (e : E) → Memᴰ e events → is_edge e ≡ true → Leads (origin e) → Leads (target e)

  -- The edges that can be followed from the start, and what lies behind one of them.
  abbrev pub Followed : E → Type 0
  Followed e = Memᴰ e events × (is_edge e ≡ true) × Leads (origin e)

  abbrev pub Beyond : String → Type 0
  Beyond x = (e : E) × Followed e × (target e ≡ x)

  leaving_iff :
      (current : String) (e : E)
      → Memᴰ e (leaving origin target is_edge current events)
        ↔ (Memᴰ e events × (origin e ≡ current) × (is_edge e ≡ true))
  unfolding leaving
  leaving_iff current e =
      ground (arith, Memᴰ-select (λ e. origin e == current && is_edge e) e events)

  record Inv (known : List String) (w : Walk E) : Type 0 where
    sound : (x : String) → contains w.visited x ≡ true → (contains known x ≡ true) ⊎ Beyond x
    kept : (x : String) → contains known x ≡ true → contains w.visited x ≡ true
    queued : (x : String) → Memᴰ x w.frontier → Leads x
    noted : (e : E) → Memᴰ e w.result → Followed e
    closed :
        (e : E)
        → Memᴰ e events
        → is_edge e ≡ true
        → (origin e ≡ start) ⊎ (contains w.visited (origin e) ≡ true)
        → Memᴰ (origin e) w.frontier ⊎ (contains w.visited (target e) ≡ true) × Memᴰ e w.result

  Beyond-Leads : (x : String) → Beyond x → Leads x
  Beyond-Leads x (e, (m, i, l), t) = subst Leads t (step e m i l)

  module _ (known : List String)
      (known_start : (x : String) → contains known x ≡ true → x ≡ start) where
    -- An edge from the start or from an identifier that was met before the round.
    closed-expand :
        (w : Walk E) (current : String) (rest : List String)
        → w.frontier ≡ current ∷ rest
        → Inv known w
        → (f : E) → Memᴰ f events
        → is_edge f ≡ true
        → (origin f ≡ start) ⊎ (contains w.visited (origin f) ≡ true)
        → Memᴰ (origin f) (expand origin target is_edge events w current rest).frontier
          ⊎ (contains (expand origin target is_edge events w current rest).visited (target f)
              ≡ true)
            × Memᴰ f (expand origin target is_edge events w current rest).result
    unfolding expand
    closed-expand w current rest e h f m i o =
        let w' = record w { frontier = rest } in
        let es = leaving origin target is_edge current events in
        let flags = λ (x : String). visited-follow_all origin target is_edge w' es x in
        let stack = λ (x : String). frontier-follow_all origin target is_edge w' es x in
        let notes = λ (f : E). result-follow_all origin target is_edge w' es f in
        elim (h.closed f m i o) [
          | inl waiting ↦
              ⊎_elim
                (λ here.
                  let k : Memᴰ f es = (leaving_iff current f).1 (m, here, i) in
                  inr (
                    (flags (target f)).1 (inr ((Memᴰ-map target (target f) es).1 (f, k, refl))),
                    (notes f).1 (inr k),
                  ))
                (λ later. inl ((stack (origin f)).1 (inl later)))
                (Memᴰ.cases_cons (subst (Memᴰ (origin f)) e waiting))
          | inr (met, followed) ↦ inr ((flags (target f)).1 (inl met), (notes f).1 (inl followed))
        ]

    Inv-expand :
        (w : Walk E) (current : String) (rest : List String)
        → w.frontier ≡ current ∷ rest
        → Inv known w
        → Inv known (expand origin target is_edge events w current rest)
    unfolding expand
    Inv-expand w current rest e h =
        let w' = record w { frontier = rest } in
        let es = leaving origin target is_edge current events in
        let to_current : Leads current = queued current (simp e (Memᴰ.head refl)) in
        let flags = λ (x : String). visited-follow_all origin target is_edge w' es x in
        let stack = λ (x : String). frontier-follow_all origin target is_edge w' es x in
        let notes = λ (f : E). result-follow_all origin target is_edge w' es f in
        let beyond : (x : String) → Memᴰ x (map target es) → Beyond x = λ x m.
          let (f, k, t) = (Memᴰ-map target x es).0 m in
          let (k', o, i) = (leaving_iff current f).0 k in
          (f, (k', i, subst Leads (sym o) to_current), t) in
        record {
          sound = λ x v. ⊎_elim (sound x) (λ m. inr (beyond x m)) ((flags x).0 v);
          kept = λ x k. (flags x).1 (inl (kept x k));
          queued = λ x m.
              ⊎_elim (λ k. queued x (simp e (Memᴰ.tail k)))
                (λ (v, new).
                  ⊎_elim (λ old. absurd (cc (old, new))) (λ k. Beyond-Leads x (beyond x k))
                    ((flags x).0 v))
                ((stack x).0 m);
          noted = λ f m.
              ⊎_elim (noted f)
                (λ k.
                  let (k', o, i) = (leaving_iff current f).0 k in
                  (k', i, subst Leads (sym o) to_current))
                ((notes f).0 m);
          closed = λ f m i o.
              let settled = closed-expand w current rest e h f m i in
              ⊎_elim (λ s. settled (inl s))
                (λ v. elim (Bool-cases (contains w.visited (origin f))) [
                  | inl old ↦ settled (inr old)
                  | inr new ↦ inl ((stack (origin f)).1 (inr (v, new)))
                ])
                o;
        }
      where
        open h use {sound, kept, queued, noted, closed}

    -- Where nothing waits, every identifier that edges lead to is met, and their edges are noted.
    Leads-met :
        (t : Walk E)
        → Inv known t
        → t.frontier ≡ []
        → (x : String) → Leads x
        → (x ≡ start) ⊎ (contains t.visited x ≡ true)
    Leads-met t h empty x here = inl refl
    Leads-met t h empty x (step e m i l) =
        elim (h.closed e m i (Leads-met t h empty (origin e) l)) [
          | inl waiting ↦ absurd (Memᴰ.not-nil (subst (Memᴰ (origin e)) empty waiting))
          | inr (met, _) ↦ inr met
        ]

    Followed-noted :
        (t : Walk E)
        → Inv known t
        → t.frontier ≡ []
        → (e : E) → Followed e
        → (contains t.visited (target e) ≡ true) × Memᴰ e t.result
    Followed-noted t h empty e (m, i, l) =
        elim (h.closed e m i (Leads-met t h empty (origin e) l)) [
          | inl waiting ↦ absurd (Memᴰ.not-nil (subst (Memᴰ (origin e)) empty waiting))
          | inr done ↦ done
        ]

    Inv-start : Inv known (record { visited = known; frontier = start ∷ []; result = [] })
    Inv-start = record {
      sound = λ x v. inl v;
      kept = λ x k. k;
      queued = λ x m. subst Leads (sym (Memᴰ.eq_of_singleton m)) here;
      noted = λ e m. absurd (Memᴰ.not-nil m);
      closed = λ e m i o. inl (Memᴰ.head (⊎_elim (λ s. s) (λ v. known_start (origin e) v) o));
    }

    -- A walk that ends has noted exactly the edges that can be followed from its start, and has met
    -- exactly what it knew at the start and what lies behind those edges.
    pub walk_correct :
        (fuel : ℕ) (t : Walk E)
        → walk origin target is_edge fuel events
            (record { visited = known; frontier = start ∷ []; result = [] })
          ≡ some t
        → ((e : E) → Memᴰ e t.result ↔ Followed e)
          × ((x : String) → (contains t.visited x ≡ true) ↔ ((contains known x ≡ true) ⊎ Beyond x))
    walk_correct fuel t ends =
        let (h, empty) =
          walk_rule origin target is_edge events (Inv known) Inv-expand fuel _ t Inv-start ends in
        (
          λ e. (h.noted e, λ f. (Followed-noted t h empty e f).1),
          λ x. (
            h.sound x,
            ⊎_elim (h.kept x) (λ (e, f, at_x).
                subst (λ y. contains t.visited y ≡ true) at_x (Followed-noted t h empty e f).0),
          ),
        )
