-- ===== src/Dag/Reduction/Walk.antt =====
-- pkg/dag/tr.go: the definitions.
use kform.Shared.{
  Bool, List, Option, Str, [], false, if◌then◌else◌, insert, keys, lookup, ltb, nat_beq, none, not,
  some, str_eq, suc, true, zero, ℕ, ◌&&◌, ◌+◌, ◌∷◌,
}
use kform.Dag.Edges.{Dag, disconnect, get_down_vertexes, get_up_vertexes, get_vertices}

-- The graph, and how many times a map was ranged over.
pub record Walk {ℓ} (V : Type ℓ) : Type ℓ where
  pub dag : Dag V
  pub ranges : ℕ

pub record WalkConfig {ℓ} (V : Type ℓ) : Type ℓ where
  pub walk_init_fn : Option (Walk V → Walk V)
  pub walk_entry_fn : Option (Walk V → Str → ℕ → Walk V)

abbrev pub Order : Type 0
Order = ℕ → List Str → List Str

module _ {ℓ} {V : Type ℓ} where
  unfoldable pub init_vertex_depth_map : Walk V → Walk V
  init_vertex_depth_map w = record w { dag = record (w.dag) { vertex_depth = [] } }

  unfoldable pub get_vertex_depth : Dag V → Str → ℕ
  get_vertex_depth d n = elim (lookup n d.vertex_depth) [ none ↦ 0 | some depth ↦ depth ]

  unfoldable pub add_vertex_depth : Walk V → Str → ℕ → Walk V
  add_vertex_depth w n depth = record w {
    dag = record (w.dag) { vertex_depth = insert n depth w.dag.vertex_depth };
  }

  -- The loop of `getbestVertexDepth`.
  unfoldable pub best_of : Dag V → ℕ → List Str → ℕ
  best_of d best [] = best
  best_of d best (up ∷ ups) =
      best_of d (if ltb best (get_vertex_depth d up) then get_vertex_depth d up else best) ups

  -- The loop of `processTransitiveReducation`.
  unfoldable pub cut : Str → ℕ → List Str → Dag V → Dag V
  cut from best [] d = d
  cut from best (up ∷ ups) d = cut from best ups (
      if not (nat_beq best 0)
        && (not (nat_beq (get_vertex_depth d up) 0) && not (nat_beq (get_vertex_depth d up) best))
      then disconnect d up from
      else d)

  module _ (ord : Order) where
    unfoldable pub process_transitive_reduction : Walk V → Str → ℕ → Walk V
    unfolding best_of cut
    process_transitive_reduction w from depth =
        let best = best_of w.dag 0 (get_up_vertexes (ord w.ranges) w.dag from) in
        record {
          dag = cut from best (get_up_vertexes (ord (w.ranges + 1)) w.dag from) w.dag;
          ranges = w.ranges + 2;
        }

    -- The loop over the down edges.
    unfoldable pub walk_all : (Str → Walk V → Option (Walk V)) → List Str → Walk V → Option (Walk V)
    walk_all visit [] w = some w
    walk_all visit (x ∷ xs) w = elim (visit x w) [ none ↦ none | some w' ↦ walk_all visit xs w' ]

    -- What a visit does before it goes on to the down edges.
    unfoldable pub enter : WalkConfig V → Str → Bool → ℕ → Walk V → Walk V
    enter wc from init depth w =
        let w' : Walk V = elim wc.walk_init_fn [ none ↦ w | some f ↦ if init then f w else w ] in
        elim wc.walk_entry_fn [ none ↦ w' | some f ↦ f w' from depth ]

    unfoldable pub trwalk : WalkConfig V → ℕ → Str → Bool → ℕ → Walk V → Option (Walk V)
    unfolding enter walk_all
    trwalk wc zero from init depth w = none
    trwalk wc (suc fuel) from init depth w =
        let w' = enter wc from init depth w in
        walk_all (λ down. trwalk wc fuel down false (depth + 1))
          (get_down_vertexes (ord w'.ranges) w'.dag from) (record w' { ranges = w'.ranges + 1 })

    abbrev pub depth_walk : WalkConfig V
    depth_walk = record {
      walk_init_fn = some init_vertex_depth_map;
      walk_entry_fn = some add_vertex_depth;
    }

    abbrev pub reduce_walk : WalkConfig V
    reduce_walk = record { walk_init_fn = none; walk_entry_fn = some process_transitive_reduction }

    -- The body of the loop over the vertices.
    unfoldable pub reduce_from : ℕ → Str → Walk V → Option (Walk V)
    unfolding trwalk
    reduce_from fuel from w = elim (trwalk depth_walk fuel from true 1 w) [
      | none ↦ none
      | some w' ↦ trwalk reduce_walk fuel from true 1 w'
    ]

    unfoldable pub transitive_reduction : ℕ → Walk V → Option (Walk V)
    unfolding reduce_from walk_all
    transitive_reduction fuel w =
        walk_all (reduce_from fuel) (ord w.ranges (keys (get_vertices w.dag)))
          (record w { ranges = w.ranges + 1 })
