-- ===== src/Dag/Reduction/Invariant.antt =====
-- What the transitive reduction of pkg/dag/tr.go keeps of a graph.
use kform.Shared.{
  Assoc, Bool-cases, List, Option-cases, Str, [], arith, contains, eq_iff, false, inl, inr, some,
  str_eq, true, ℕ, ◌+◌, ◌==◌, ◌≡◌,
}
use kform.Dag.Edges.{Dag, get_up_vertexes}
use kform.Dag.Laws.{IsMirror, linked}
use kform.Dag.Reduction.Rules.{IsKept, trwalk_rule, walk_all_rule}
use kform.Dag.Reduction.Steps.{
  Shrinks, Shrinks-refl, Shrinks-trans, best_of_attained, cut-IsMirror, cut-Shrinks, linked-cut_up,
}
use kform.Dag.Reduction.Walk.{
  Order, Walk, add_vertex_depth, best_of, cut, depth_walk, enter, init_vertex_depth_map,
  process_transitive_reduction, reduce_from, reduce_walk, transitive_reduction, trwalk,
}

-- Every order of a `range` visits the keys of the map.
pub record IsOrder (ord : Order) : Type 0 where
  pub visits : (n : ℕ) (l : List Str) (x : Str) → contains (ord n l) x ≡ contains l x

-- What both walks keep of a graph.
pub record IsStable {ℓ κ} {V : Type ℓ} (P : Dag V → Type κ) : Type (ℓ ⊔ κ) where
  pub depth_free : (d : Dag V) (m : Assoc Str ℕ) → P d → P (record d { vertex_depth = m })
  pub cut_kept :
      (d : Dag V) (from : Str) (xs ys : List Str)
      → ((x : Str) → contains xs x ≡ linked d.up_edges from x)
      → ((x : Str) → contains ys x ≡ linked d.up_edges from x)
      → P d
      → P (cut from (best_of d 0 xs) ys d)

module _ {ℓ κ} {V : Type ℓ} (ord : Order) (order : IsOrder ord) (P : Dag V → Type κ)
    (stable : IsStable P) where
  process_keeps :
      (w : Walk V) (from : Str) (depth : ℕ)
      → P w.dag
      → P (process_transitive_reduction ord w from depth).dag
  unfolding process_transitive_reduction get_up_vertexes linked
  process_keeps w from depth p =
      stable.cut_kept w.dag from (get_up_vertexes (ord w.ranges) w.dag from)
        (get_up_vertexes (ord (w.ranges + 1)) w.dag from) (λ x. order.visits w.ranges _ x)
        (λ x. order.visits (w.ranges + 1) _ x) p

  pub depth_walk_kept : IsKept ord P (depth_walk ord)
  unfolding enter init_vertex_depth_map add_vertex_depth
  depth_walk_kept from true depth w p = stable.depth_free _ _ (stable.depth_free w.dag [] p)
  depth_walk_kept from false depth w p = stable.depth_free _ _ p

  pub reduce_walk_kept : IsKept ord P (reduce_walk ord)
  unfolding enter
  reduce_walk_kept from init depth w p = process_keeps w from depth p

  reduce_from_rule :
      (fuel : ℕ) (from : Str) (w t : Walk V)
      → reduce_from ord fuel from w ≡ some t
      → P w.dag
      → P t.dag
  unfolding reduce_from
  reduce_from_rule fuel from w t e p =
      elim (Option-cases (trwalk ord (depth_walk ord) fuel from true 1 w)) [
        | inl stuck ↦ ground arith
        | inr (w', went) ↦
            trwalk_rule ord P (reduce_walk ord) reduce_walk_kept fuel from true 1 w' t
              (rw (went, reduce_from) at e)
              (trwalk_rule ord P (depth_walk ord) depth_walk_kept fuel from true 1 w w' went p)
      ]

  pub reduction_rule :
      (fuel : ℕ) (w t : Walk V) → transitive_reduction ord fuel w ≡ some t → P w.dag → P t.dag
  unfolding transitive_reduction
  reduction_rule fuel w t e p =
      walk_all_rule ord P (reduce_from ord fuel) (reduce_from_rule fuel) _ _ t e p

-- `v` has a dependency.
abbrev pub HasUp {ℓ} : {V : Type ℓ} → Dag V → Str → Type 0
HasUp d v = (u : Str) × (linked d.up_edges v u ≡ true)

module _ {ℓ} {V : Type ℓ} where
  -- `P` of `reduction_rule`: what the graph `d` has kept of `d₀`.
  pub record IsReduced (d₀ d : Dag V) : Type ℓ where
    pub shrinks : Shrinks d₀ d
    pub mirrored : IsMirror d
    pub still_up : (v : Str) → HasUp d₀ v → HasUp d v

  cut-HasUp :
      (d : Dag V) (from : Str) (xs ys : List Str)
      → ((x : Str) → contains xs x ≡ linked d.up_edges from x)
      → (v : Str) → HasUp d v
      → HasUp (cut from (best_of d 0 xs) ys d) v
  cut-HasUp d from xs ys hx v (u, up) = elim (best_of_attained d 0 xs) [
    | inl none_deep ↦ (u, ground (arith, linked-cut_up from (best_of d 0 xs) ys d u v))
    | inr (w, there, deep) ↦ elim (Bool-cases (from == v)) [
      | inl here ↦
          (w, ground (arith, eq_iff from v, hx w, linked-cut_up from (best_of d 0 xs) ys d w v))
      | inr elsewhere ↦ (u, ground (arith, linked-cut_up from (best_of d 0 xs) ys d u v))
    ]
  ]

  pub Shrinks-stable : (d₀ : Dag V) → IsStable (Shrinks d₀)
  Shrinks-stable d₀ = record {
    depth_free = λ d m p. record { vertices_kept = p.vertices_kept; fewer = p.fewer };
    cut_kept = λ d from xs ys hx hy p. Shrinks-trans p (cut-Shrinks from (best_of d 0 xs) ys d);
  }

  IsReduced-stable : (d₀ : Dag V) → IsStable (IsReduced d₀)
  IsReduced-stable d₀ = record {
    depth_free = λ d m p. record {
      shrinks = record { vertices_kept = p.shrinks.vertices_kept; fewer = p.shrinks.fewer };
      mirrored = record { mirror = p.mirrored.mirror };
      still_up = p.still_up;
    };
    cut_kept = λ d from xs ys hx hy p. record {
      shrinks = Shrinks-trans p.shrinks (cut-Shrinks from (best_of d 0 xs) ys d);
      mirrored = cut-IsMirror from (best_of d 0 xs) ys d p.mirrored;
      still_up = λ v h. cut-HasUp d from xs ys hx v (p.still_up v h);
    };
  }

  -- Whatever the order of the ranges: if the reduction returns, the vertices are the same, no edge
  -- is new, both edge maps agree, and every vertex that depended on another one still depends on
  -- some vertex.
  pub reduction-IsReduced :
      (ord : Order) (fuel : ℕ) (w t : Walk V)
      → IsOrder ord
      → IsMirror (w.dag)
      → transitive_reduction ord fuel w ≡ some t
      → IsReduced (w.dag) (t.dag)
  reduction-IsReduced ord fuel w t order h e =
      reduction_rule ord order (IsReduced w.dag) (IsReduced-stable w.dag) fuel w t e
        (record { shrinks = Shrinks-refl w.dag; mirrored = h; still_up = λ v up. up })
