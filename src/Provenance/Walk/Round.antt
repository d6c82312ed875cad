-- ===== src/Provenance/Walk/Round.antt =====
-- One round of the lineage walk (src/modelguard/provenance/graph.py): which identifiers it marks and
-- puts on the stack, and which edges it notes.
use mathlib.Core.List.Memᴰ
use modelguard.Base.{
  ℕ, suc, ◌+◌, ◌≤◌, String, ◌≡◌, refl, ◌↔◌, ◌⊎◌, inl, inr, Bool, true, false, List, [], ◌∷◌, Memᴰ,
  map, arith,
}
use modelguard.Base.{
  string_eq, contains, length, Memᴰ-cons, Memᴰ-nil, Memᴰ-append, Bool-cases, if◌then◌else◌,
}
use modelguard.Provenance.Walk.{Walk, follow, follow_all}

contains-cons :
    (x y : String) (ys : List String)
    → (contains (y ∷ ys) x ≡ true) ↔ ((x ≡ y) ⊎ (contains ys x ≡ true))
contains-cons x y ys = ground arith

module _ {ℓ} {E : Type ℓ} (origin target : E → String) (is_edge : E → Bool) where
  pub visited-follow_all :
      (w : Walk E) (es : List E) (x : String)
      → (contains (follow_all origin target is_edge w es).visited x ≡ true)
        ↔ ((contains w.visited x ≡ true) ⊎ Memᴰ x (map target es))
  unfolding follow_all
  visited-follow_all w [] x = ground (arith, Memᴰ-nil x)
  visited-follow_all w (e ∷ es) x = ground (
    arith,
    visited-follow_all (follow origin target is_edge w e) es x,
    contains-cons x (target e) w.visited,
    Memᴰ-cons x (target e) (map target es),
  )

  pub frontier-follow_all :
      (w : Walk E) (es : List E) (x : String)
      → Memᴰ x (follow_all origin target is_edge w es).frontier ↔ (
          Memᴰ x w.frontier
          ⊎ (contains (follow_all origin target is_edge w es).visited x ≡ true)
            × (contains w.visited x ≡ false))
  unfolding follow_all
  frontier-follow_all w [] x = ground arith
  frontier-follow_all w (e ∷ es) x = ground (
    arith,
    frontier-follow_all (follow origin target is_edge w e) es x,
    visited-follow_all (follow origin target is_edge w e) es x,
    contains-cons x (target e) w.visited,
    Memᴰ-cons x (target e) w.frontier,
  )

  result-follow :
      (w : Walk E) (f e : E)
      → Memᴰ e (follow origin target is_edge w f).result ↔ (Memᴰ e w.result ⊎ (e ≡ f))
  unfolding follow
  result-follow w f e =
      let noted = Memᴰ-append e w.result (f ∷ []) in
      let last = Memᴰ-cons e f [] in
      elim (Bool-cases (contains w.visited (target f))) [
        | inl met ↦ rw met (ground (arith, noted, last, Memᴰ-nil e))
        | inr new ↦ rw new (ground (arith, noted, last, Memᴰ-nil e))
      ]

  pub result-follow_all :
      (w : Walk E) (es : List E) (e : E)
      → Memᴰ e (follow_all origin target is_edge w es).result ↔ (Memᴰ e w.result ⊎ Memᴰ e es)
  unfolding follow_all
  result-follow_all w [] e = ground (arith, Memᴰ-nil e)
  result-follow_all w (f ∷ es) e = ground (
    arith,
    result-follow_all (follow origin target is_edge w f) es e,
    result-follow w f e,
    Memᴰ-cons e f es,
  )

  -- The edges whose target is not met yet.
  abbrev pub unmet : List String → List E → ℕ
  unmet visited [] = 0
  unmet visited (e ∷ es) =
      if contains visited (target e) then unmet visited es else suc (unmet visited es)

  unmet-cons :
      (visited : List String) (x : String) (es : List E) → unmet (x ∷ visited) es ≤ unmet visited es
  unmet-cons visited x [] = omega arith
  unmet-cons visited x (e ∷ es) = ground (arith, unmet-cons visited x es)

  unmet-target :
      (visited : List String) (e : E) (es : List E)
      → Memᴰ e es
      → contains visited (target e) ≡ false
      → suc (unmet (target e ∷ visited) es) ≤ unmet visited es
  unmet-target visited e [] m h = absurd (Memᴰ.not-nil m)
  unmet-target visited e (f ∷ es) m h =
      ground (arith, Memᴰ-cons e f es, unmet-target visited e es, unmet-cons visited (target e) es)

  -- Following edges of the graph marks what it puts on the stack.
  pub work-follow_all :
      (w : Walk E) (es all : List E)
      → ((e : E) → Memᴰ e es → Memᴰ e all)
      → unmet (follow_all origin target is_edge w es).visited all
          + length (follow_all origin target is_edge w es).frontier
        ≤ unmet w.visited all + length w.frontier
  unfolding follow_all
  work-follow_all w [] all inside = omega arith
  work-follow_all w (e ∷ es) all inside = ground (
    arith,
    work-follow_all (follow origin target is_edge w e) es all (λ f m. inside f (Memᴰ.tail m)),
    unmet-target w.visited e all (inside e (Memᴰ.head refl)),
  )
