-- ===== src/Dag/Reduction/Cycle.antt =====
-- pkg/dag/tr.go on a graph with a cycle.
use kform.Shared.{
  Bool, Bool-cases, Bool_ext, List, Option-cases, Str, arith, contains-keys, eq_iff, false, inl,
  inr, keys, none, refl, some, str_eq, subst, suc, sym, true, zero, ℕ, ◌+◌, ◌==◌, ◌∙◌, ◌≡◌, ◌⊎◌,
}
use kform.Dag.Edges.{Dag, get_down_vertexes, get_up_vertexes, get_vertices, vertex_exists}
use kform.Dag.Laws.{linked}
use kform.Dag.Reduction.Invariant.{IsOrder}
use kform.Dag.Reduction.Rules.{
  reduce_from_steps, reduce_from_stuck, trwalk_rule, walk_all_rule_on, walk_all_stuck,
}
use kform.Dag.Reduction.Steps.{linked-cut}
use kform.Dag.Reduction.Walk.{
  Order, Walk, WalkConfig, add_vertex_depth, best_of, cut, depth_walk, enter, init_vertex_depth_map,
  process_transitive_reduction, reduce_from, reduce_walk, transitive_reduction, trwalk,
}

-- `leads` marks the vertices from which a walk can go on for ever: each of them has an edge to
-- one of them, and no edge goes from another vertex to one of them.
pub record IsEndless {ℓ} {V : Type ℓ} (d : Dag V) (leads : Str → Bool) : Type 0 where
  pub goes_on :
      (v : Str) → leads v ≡ true → (u : Str) × (linked d.down_edges v u ≡ true) × (leads u ≡ true)
  pub not_entered : (v u : Str) → leads v ≡ false → linked d.down_edges v u ≡ true → leads u ≡ false

-- The edges into those vertices are still all there, and no edge is new.
record IsKeptWhole {ℓ} {V : Type ℓ} (d₀ : Dag V) (leads : Str → Bool) (d : Dag V) : Type 0 where
  inner : (v u : Str) → leads u ≡ true → linked d.down_edges v u ≡ linked d₀.down_edges v u
  fewer : (v u : Str) → linked d.down_edges v u ≡ true → linked d₀.down_edges v u ≡ true

module _ {ℓ} {V : Type ℓ} (ord : Order) (order : IsOrder ord) (d₀ : Dag V)
    (leads : Str → Bool) where
  abbrev IsIntact : Dag V → Type 0
  IsIntact = IsKeptWhole d₀ leads

  cut-IsIntact :
      (d : Dag V) (from : Str) (best : ℕ) (ups : List Str)
      → leads from ≡ false
      → IsIntact d
      → IsIntact (cut from best ups d)
  cut-IsIntact d from best ups out h = record {
    inner = λ v u l.
        let apart : (from == u) ≡ false =
          Bool_ext (from == u) false
            (λ e. sym (subst (λ x. leads x ≡ false) ((eq_iff from u).0 e) out) ∙ l) (λ e. cc) in
        ground (arith, linked-cut from best ups d v u, h.inner v u l);
    fewer = λ v u l. h.fewer v u (ground (arith, linked-cut from best ups d v u));
  }

  -- A visit outside keeps the graph intact; a visit of the first walk does so everywhere.
  enter_reduce-IsIntact :
      (from : Str) (init : Bool) (depth : ℕ) (w : Walk V)
      → leads from ≡ false
      → IsIntact w.dag
      → IsIntact (enter ord (reduce_walk ord) from init depth w).dag
  unfolding enter process_transitive_reduction
  enter_reduce-IsIntact from init depth w out h =
      cut-IsIntact w.dag from (best_of w.dag 0 (get_up_vertexes (ord w.ranges) w.dag from))
        (get_up_vertexes (ord (w.ranges + 1)) w.dag from) out h

  enter_depth-IsIntact :
      (from : Str) (init : Bool) (depth : ℕ) (w : Walk V)
      → IsIntact w.dag
      → IsIntact (enter ord (depth_walk ord) from init depth w).dag
  unfolding enter init_vertex_depth_map add_vertex_depth
  enter_depth-IsIntact from true depth w h = record { inner = h.inner; fewer = h.fewer }
  enter_depth-IsIntact from false depth w h = record { inner = h.inner; fewer = h.fewer }

  walk_outside-IsIntact :
      IsEndless d₀ leads
      → (wc : WalkConfig V)
      → ((from : Str) (init : Bool) (depth : ℕ) (w : Walk V)
          → leads from ≡ false
          → IsIntact w.dag
          → IsIntact (enter ord wc from init depth w).dag)
      → (fuel : ℕ) (from : Str) (init : Bool) (depth : ℕ) (w t : Walk V) → leads from ≡ false
      → trwalk ord wc fuel from init depth w ≡ some t
      → IsIntact w.dag
      → IsIntact t.dag
  unfolding trwalk get_down_vertexes linked
  walk_outside-IsIntact endless wc kept zero from init depth w t out e h = cc
  walk_outside-IsIntact endless wc kept (suc fuel) from init depth w t out e h =
      let w' = enter ord wc from init depth w in
      let h' = kept from init depth w out h in
      walk_all_rule_on ord IsIntact (λ down. trwalk ord wc fuel down false (depth + 1))
        (get_down_vertexes (ord w'.ranges) w'.dag from)
        (λ x w₁ t₁ m went.
          walk_outside-IsIntact endless wc kept fuel x false (depth + 1) w₁ t₁
            (endless.not_entered from x out
              (h'.fewer from x (sym (order.visits w'.ranges _ x) ∙ m)))
            went)
        (record w' { ranges = w'.ranges + 1 }) t e h'

  depth_walk-IsIntact :
      (fuel : ℕ) (from : Str) (init : Bool) (depth : ℕ) (w t : Walk V)
      → trwalk ord (depth_walk ord) fuel from init depth w ≡ some t
      → IsIntact w.dag
      → IsIntact t.dag
  depth_walk-IsIntact =
      trwalk_rule ord IsIntact (depth_walk ord) (λ f i k v g. enter_depth-IsIntact f i k v g)

  -- From a marked vertex the first walk runs out of any fuel.
  depth_walk_stuck :
      IsEndless d₀ leads
      → (fuel : ℕ) (from : Str) (init : Bool) (depth : ℕ) (w : Walk V) → leads from ≡ true
      → IsIntact w.dag
      → trwalk ord (depth_walk ord) fuel from init depth w ≡ none
  unfolding trwalk get_down_vertexes linked
  depth_walk_stuck endless zero from init depth w l h = refl
  depth_walk_stuck endless (suc fuel) from init depth w l h =
      let w' = enter ord (depth_walk ord) from init depth w in
      let h' = enter_depth-IsIntact from init depth w h in
      let (u, edge, lu) = endless.goes_on from l in
      walk_all_stuck ord IsIntact (λ down. trwalk ord (depth_walk ord) fuel down false (depth + 1))
        (get_down_vertexes (ord w'.ranges) w'.dag from)
        (λ x w₁ h₁. elim (Option-cases (trwalk ord (depth_walk ord) fuel x false (depth + 1) w₁)) [
          | inl none_left ↦ inl none_left
          | inr (t, went) ↦ inr (t, went, depth_walk-IsIntact fuel x false (depth + 1) w₁ t went h₁)
        ])
        u (λ w₁ h₁. depth_walk_stuck endless fuel u false (depth + 1) w₁ lu h₁)
        (order.visits w'.ranges _ u ∙ (h'.inner from u lu ∙ edge))
        (record w' { ranges = w'.ranges + 1 }) h'

  reduce_from_visit :
      IsEndless d₀ leads
      → (fuel : ℕ) (from : Str) (w : Walk V) → IsIntact w.dag
      → (reduce_from ord fuel from w ≡ none)
        ⊎ ((t : Walk V) × (reduce_from ord fuel from w ≡ some t) × IsIntact t.dag)
  reduce_from_visit endless fuel from w h =
      elim (Option-cases (trwalk ord (depth_walk ord) fuel from true 1 w)) [
        | inl none_left ↦ inl (reduce_from_stuck ord fuel from w none_left)
        | inr (w', went) ↦ elim (Option-cases (trwalk ord (reduce_walk ord) fuel from true 1 w')) [
          | inl none_left ↦ inl (reduce_from_steps ord fuel from w w' went ∙ none_left)
          | inr (t, ends) ↦ elim (Bool-cases (leads from)) [
            | inl l ↦ cc (went, depth_walk_stuck endless fuel from true 1 w l h)
            | inr out ↦ inr (
              t,
              reduce_from_steps ord fuel from w w' went ∙ ends,
              walk_outside-IsIntact endless (reduce_walk ord)
                  (λ f i k v o g. enter_reduce-IsIntact f i k v o g) fuel from true 1 w' t out ends
                  (depth_walk-IsIntact fuel from true 1 w w' went h),
            )
          ]
        ]
      ]

-- If some vertex leads into a cycle, the reduction does not return, whatever the fuel: the
-- recursion of `trwalk` has no end.
pub reduction_diverges {ℓ} :
    {V : Type ℓ} (ord : Order) (w : Walk V) (leads : Str → Bool) (v : Str) (fuel : ℕ)
    → IsOrder ord
    → IsEndless (w.dag) leads
    → vertex_exists (w.dag) v ≡ true
    → leads v ≡ true
    → transitive_reduction ord fuel w ≡ none
unfolding transitive_reduction get_vertices vertex_exists
reduction_diverges ord w leads v fuel order endless known l =
    walk_all_stuck ord (IsKeptWhole w.dag leads) (reduce_from ord fuel)
      (ord w.ranges (keys w.dag.vertices))
      (λ x w₁ h. reduce_from_visit ord order w.dag leads endless fuel x w₁ h) v
      (λ w₁ h.
        reduce_from_stuck ord fuel v w₁
          (depth_walk_stuck ord order w.dag leads endless fuel v true 1 w₁ l h))
      (order.visits w.ranges _ v ∙ (contains-keys v w.dag.vertices ∙ known))
      (record w { ranges = w.ranges + 1 }) (record { inner = λ a b _. refl; fewer = λ a b e. e })
