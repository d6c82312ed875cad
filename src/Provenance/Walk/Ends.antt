-- ===== src/Provenance/Walk/Ends.antt =====
-- The lineage walk (src/modelguard/provenance/graph.py) ends: a round takes one identifier off the
-- stack and puts on it only identifiers that it marks, which are targets of edges.
use modelguard.Base.{
  ℕ, zero, suc, ◌+◌, ◌≤◌, String, ◌≡◌, refl, ap, ◌⊎◌, inl, inr, Bool, some, List, [], ◌∷◌, Memᴰ,
  arith,
}
use modelguard.Base.{string_eq, length, Memᴰ-select}
use modelguard.Provenance.Walk.{Walk, leaving, expand, walk}
use modelguard.Provenance.Walk.Round.{unmet, work-follow_all}

pub List-split {ℓ} :
    {A : Type ℓ} (xs : List A) → (xs ≡ []) ⊎ ((x : A) × (rest : List A) × (xs ≡ x ∷ rest))
List-split [] = inl refl
List-split (x ∷ xs) = inr (x, xs, refl)

module _ {ℓ} {E : Type ℓ} (origin target : E → String) (is_edge : E → Bool) (events : List E) where
  pub leaving-Memᴰ :
      (current : String) (e : E)
      → Memᴰ e (leaving origin target is_edge current events)
      → Memᴰ e events
  unfolding leaving
  leaving-Memᴰ current e m = ((Memᴰ-select _ e events).0 m).0

  work-expand :
      (w : Walk E) (current : String) (rest : List String)
      → unmet origin target is_edge
            (expand origin target is_edge events w current rest).visited
            events
          + length (expand origin target is_edge events w current rest).frontier
        ≤ unmet origin target is_edge w.visited events + length rest
  unfolding expand
  work-expand w current rest =
      work-follow_all origin target is_edge (record w { frontier = rest })
        (leaving origin target is_edge current events) events (leaving-Memᴰ current)

  walk_ends :
      (fuel : ℕ) (w : Walk E)
      → unmet origin target is_edge w.visited events + length w.frontier ≤ fuel
      → (t : Walk E) × (walk origin target is_edge fuel events w ≡ some t)
  unfolding walk
  walk_ends zero w h = elim (List-split w.frontier) [
    | inl empty ↦ (w, simp (empty, walk))
    | inr (x, rest, e) ↦ absurd (omega (arith, ap length e))
  ]
  walk_ends (suc fuel) w h = elim (List-split w.frontier) [
    | inl empty ↦ (w, simp (empty, walk))
    | inr (x, rest, e) ↦
        let (t, ends) =
          walk_ends fuel (expand origin target is_edge events w x rest)
            (omega (arith, ap length e, work-expand w x rest)) in
        (t, simp (e, walk) ends)
  ]

  unmet-le-length :
      (visited : List String) (es : List E) → unmet origin target is_edge visited es ≤ length es
  unmet-le-length visited [] = omega arith
  unmet-le-length visited (e ∷ es) = ground (arith, unmet-le-length visited es)

  -- A walk that starts at one identifier ends in one round more than there are events.
  pub walk_returns :
      (w : Walk E)
      → length w.frontier ≡ 1
      → (t : Walk E) × (walk origin target is_edge (suc (length events)) events w ≡ some t)
  walk_returns w one =
      walk_ends (suc (length events)) w (omega (arith, one, unmet-le-length w.visited events))

  -- An invariant that a round keeps holds at the end, where the stack is empty.
  pub walk_rule {κ} :
      (P : Walk E → Type κ)
      → ((w : Walk E) (current : String) (rest : List String)
          → w.frontier ≡ current ∷ rest
          → P w
          → P (expand origin target is_edge events w current rest))
      → (fuel : ℕ) → (w t : Walk E) → P w
      → walk origin target is_edge fuel events w ≡ some t
      → P t × (t.frontier ≡ [])
  unfolding walk
  walk_rule P keep zero w t p h = elim (List-split w.frontier) [
    | inl empty ↦ ground (arith, rw (empty, walk) at h)
    | inr (x, rest, e) ↦ absurd (let k = rw (e, walk) at h in cc)
  ]
  walk_rule P keep (suc fuel) w t p h = elim (List-split w.frontier) [
    | inl empty ↦ ground (arith, rw (empty, walk) at h)
    | inr (x, rest, e) ↦
        walk_rule P keep fuel (expand origin target is_edge events w x rest) t (keep w x rest e p)
          (rw (e, walk) at h)
  ]
