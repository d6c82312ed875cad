-- ===== src/Provenance/Walk.antt =====
-- The loop of the lineage queries of src/modelguard/provenance/graph.py: a stack of identifiers that
-- are still to be expanded, the identifiers met so far, and the edges that were followed. `origin` and
-- `target` are the ends of an edge, in the direction of the query.
pub mod Round
pub mod Ends
pub mod Reaches
use modelguard.Base.{
  ℕ, zero, suc, String, Bool, true, false, ◌&&◌, Option, none, some, List, [], ◌∷◌, ◌++◌,
}
use modelguard.Base.{◌==◌, string_eq, contains, select, if◌then◌else◌}

pub record Walk {ℓ} (E : Type ℓ) : Type ℓ where
  pub visited : List String
  pub frontier : List String
  pub result : List E

module _ {ℓ} {E : Type ℓ} (origin target : E → String) (is_edge : E → Bool) where
  -- The body of the inner loop.
  unfoldable pub follow : Walk E → E → Walk E
  follow w edge =
      let noted = record w { result = w.result ++ edge ∷ [] } in
      if contains w.visited (target edge)
      then noted
      else record noted { visited = target edge ∷ w.visited; frontier = target edge ∷ w.frontier }

  unfoldable pub follow_all : Walk E → List E → Walk E
  unfolding follow
  follow_all w [] = w
  follow_all w (edge ∷ edges) = follow_all (follow w edge) edges

  -- `direct_parents` or `direct_children`: the edges that lead away from an identifier.
  unfoldable pub leaving : String → List E → List E
  leaving current events = select (λ e. origin e == current && is_edge e) events

  -- One round of the `while` loop, after `current` was popped.
  unfoldable pub expand : List E → Walk E → String → List String → Walk E
  unfolding follow_all leaving
  expand events w current rest = follow_all (record w { frontier = rest }) (leaving current events)

  -- The `while` loop; `none` where the fuel ran out.
  unfoldable pub walk : ℕ → List E → Walk E → Option (Walk E)
  unfolding expand
  walk zero events w = elim w.frontier [ [] ↦ some w | _ ∷ _ ↦ none ]
  walk (suc fuel) events w = elim w.frontier [
    | [] ↦ some w
    | current ∷ rest ↦ walk fuel events (expand events w current rest)
  ]
