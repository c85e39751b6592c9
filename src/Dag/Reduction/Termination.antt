-- ===== src/Dag/Reduction/Termination.antt =====
-- When the walks of pkg/dag/tr.go return.
use kform.Shared.{
  Bool, List, Option, Str, [], arith, contains, contains-head, contains-keys, contains-tail, false,
  keys, refl, some, str_eq, suc, sym, true, zero, ℕ, ◌+◌, ◌<◌, ◌∙◌, ◌∷◌, ◌≡◌,
}
use kform.Dag.Edges.{Dag, get_down_vertexes, get_vertices, vertex_exists}
use kform.Dag.Laws.{linked}
use kform.Dag.Reduction.Invariant.{IsOrder, Shrinks-stable, depth_walk_kept, reduce_walk_kept}
use kform.Dag.Reduction.Rules.{IsKept, reduce_from_steps, walk_all-cons}
use kform.Dag.Reduction.Steps.{Shrinks, Shrinks-refl}
use kform.Dag.Reduction.Walk.{
  Order, Walk, WalkConfig, depth_walk, enter, reduce_from, reduce_walk, transitive_reduction,
  trwalk, walk_all,
}

module _ {ℓ κ} {V : Type ℓ} (ord : Order) (Q : Dag V → Type κ) where
  -- A loop returns if each of its visits does.
  walk_all_returns :
      (visit : Str → Walk V → Option (Walk V)) (xs : List Str)
      → ((x : Str) (w : Walk V)
          → contains xs x ≡ true
          → Q w.dag
          → (t : Walk V) × (visit x w ≡ some t) × Q t.dag)
      → (w : Walk V) → Q w.dag
      → (t : Walk V) × (walk_all ord visit xs w ≡ some t) × Q t.dag
  unfolding walk_all contains
  walk_all_returns visit [] each w q = (w, refl, q)
  walk_all_returns visit (x ∷ xs) each w q =
      let (w', went, q') = each x w (contains-head x xs) q in
      let (t, ends, qt) =
        walk_all_returns visit xs (λ y w₁ m. each y w₁ (contains-tail x y xs m)) w' q' in
      (t, walk_all-cons ord visit x xs w w' went ∙ ends, qt)

module _ {ℓ} {V : Type ℓ} (ord : Order) (order : IsOrder ord) (d₀ : Dag V) where
  -- Every edge goes down in `height`.
  abbrev pub IsRanked : (Str → ℕ) → Type 0
  IsRanked height = (u v : Str) → linked d₀.down_edges u v ≡ true → height v < height u

  trwalk_returns :
      (height : Str → ℕ)
      → IsRanked height
      → (wc : WalkConfig V) → IsKept ord (Shrinks d₀) wc
      → (fuel : ℕ) (from : Str) (init : Bool) (depth : ℕ) (w : Walk V) → height from < fuel
      → Shrinks d₀ w.dag
      → (t : Walk V) × (trwalk ord wc fuel from init depth w ≡ some t) × Shrinks d₀ t.dag
  unfolding trwalk get_down_vertexes linked
  trwalk_returns height down wc kept zero from init depth w h q = absurd (omega arith)
  trwalk_returns height down wc kept (suc fuel) from init depth w h q =
      let w' = enter ord wc from init depth w in
      let q' = kept from init depth w q in
      walk_all_returns ord (Shrinks d₀) (λ x. trwalk ord wc fuel x false (depth + 1))
        (get_down_vertexes (ord w'.ranges) w'.dag from)
        (λ x w₁ m q₁.
          let lower = down from x (q'.fewer from x (sym (order.visits w'.ranges _ x) ∙ m)) in
          trwalk_returns height down wc kept fuel x false (depth + 1) w₁ (omega arith) q₁)
        (record w' { ranges = w'.ranges + 1 }) q'

  reduce_from_returns :
      (height : Str → ℕ)
      → IsRanked height
      → (fuel : ℕ) (from : Str) (w : Walk V) → height from < fuel
      → Shrinks d₀ w.dag
      → (t : Walk V) × (reduce_from ord fuel from w ≡ some t) × Shrinks d₀ t.dag
  unfolding reduce_from
  reduce_from_returns height down fuel from w h q =
      let (w', went, q') =
        trwalk_returns height down (depth_walk ord)
          (depth_walk_kept ord order (Shrinks d₀) (Shrinks-stable d₀)) fuel from true 1 w h q in
      let (t, ends, qt) =
        trwalk_returns height down (reduce_walk ord)
          (reduce_walk_kept ord order (Shrinks d₀) (Shrinks-stable d₀)) fuel from true 1 w' h q' in
      (t, reduce_from_steps ord fuel from w w' went ∙ ends, qt)

-- On a graph whose edges all go down in some height below the fuel, the reduction returns: the
-- recursion is no deeper than the greatest height.
pub reduction_returns {ℓ} :
    {V : Type ℓ} (ord : Order) (w : Walk V) (height : Str → ℕ) (fuel : ℕ)
    → IsOrder ord
    → ((u v : Str) → linked (w.dag.down_edges) u v ≡ true → height v < height u)
    → ((v : Str) → vertex_exists (w.dag) v ≡ true → height v < fuel)
    → (t : Walk V) × (transitive_reduction ord fuel w ≡ some t)
unfolding transitive_reduction get_vertices vertex_exists
reduction_returns ord w height fuel order down bound =
    let (t, ends, _) =
      walk_all_returns ord (Shrinks w.dag) (reduce_from ord fuel)
        (ord w.ranges (keys w.dag.vertices))
        (λ x w₁ m q₁.
          reduce_from_returns ord order w.dag height down fuel x w₁
            (bound x (sym (order.visits w.ranges _ x ∙ contains-keys x w.dag.vertices) ∙ m)) q₁)
        (record w { ranges = w.ranges + 1 }) (Shrinks-refl w.dag) in
    (t, ends)
