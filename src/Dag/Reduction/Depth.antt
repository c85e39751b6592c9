-- ===== src/Dag/Reduction/Depth.antt =====
-- Which dependencies pkg/dag/tr.go takes away: the noted depths of the walk.
use kform.Shared.{
  List, Str, [], arith, contains, eq_iff, false, str_eq, true, ℕ, ◌+◌, ◌<◌, ◌∙◌, ◌∷◌, ◌≡◌, ◌≤◌,
}
use kform.Dag.Edges.{Dag, get_up_vertexes}
use kform.Dag.Laws.{linked}
use kform.Dag.Reduction.Invariant.{IsOrder}
use kform.Dag.Reduction.Steps.{linked-cut}
use kform.Dag.Reduction.Walk.{Order, Walk, best_of, get_vertex_depth, process_transitive_reduction}

module _ {ℓ} {V : Type ℓ} where
  -- The best depth is at least the one it starts with and that of every listed vertex.
  le-best_of : (d : Dag V) (b : ℕ) (ups : List Str) → b ≤ best_of d b ups
  unfolding best_of
  le-best_of d b [] = omega arith
  le-best_of d b (up ∷ ups) =
      ground (arith, le-best_of d b ups, le-best_of d (get_vertex_depth d up) ups)

  depth-le-best_of :
      (d : Dag V) (b : ℕ) (ups : List Str) (x : Str)
      → contains ups x ≡ true
      → get_vertex_depth d x ≤ best_of d b ups
  unfolding best_of contains
  depth-le-best_of d b [] x h = cc
  depth-le-best_of d b (up ∷ ups) x h = ground (
    arith,
    eq_iff up x,
    le-best_of d b ups,
    le-best_of d (get_vertex_depth d up) ups,
    depth-le-best_of d b ups x,
    depth-le-best_of d (get_vertex_depth d up) ups x,
  )

  -- If `v` depends on `u` and on `x`, and the walk has noted a smaller depth for `u` than for `x`,
  -- then the visit of `v` takes the edge u → v away. Nothing asks for a path from `u` to `x`.
  pub process_cuts :
      (ord : Order) (w : Walk V) (u x v : Str) (depth : ℕ)
      → IsOrder ord
      → linked (w.dag.up_edges) v u ≡ true
      → linked (w.dag.up_edges) v x ≡ true
      → 0 < get_vertex_depth (w.dag) u
      → get_vertex_depth (w.dag) u < get_vertex_depth (w.dag) x
      → linked ((process_transitive_reduction ord w v depth).dag.down_edges) u v ≡ false
  unfolding process_transitive_reduction get_up_vertexes linked
  process_cuts ord w u x v depth order hu hx pos deeper =
      let first = get_up_vertexes (ord w.ranges) w.dag v in
      let second = get_up_vertexes (ord (w.ranges + 1)) w.dag v in
      let best = best_of w.dag 0 first in
      let there : contains second u ≡ true = order.visits (w.ranges + 1) _ u ∙ hu in
      let high : get_vertex_depth w.dag x ≤ best =
        depth-le-best_of w.dag 0 first x (order.visits w.ranges _ x ∙ hx) in
      linked-cut v best second w.dag u v ∙ ground (arith, eq_iff v v)
