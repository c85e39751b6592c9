-- ===== src/Dag/Examples.antt =====
-- Small graphs: the theorems of this component at inputs that meet their hypotheses, and tests.
use mathlib.Core.Option
use kform.Shared.{
  Bool, Bool-cases, Str, [], add, arith, contains, delete, eq_iff, err, false, has_key,
  if◌then◌else◌, inl, inr, insert, keys, list_beq, lookup, none, ok, refl, some, str, str_eq, sym,
  true, ℕ, ◌-◌, ◌<◌, ◌==◌, ◌∷◌, ◌≡◌, ◌≤◌, ◌⊎◌,
}
use kform.Dag.Edges.{
  Dag, add_edge, add_vertex, connect, delete_edge, disconnect, duplicate_vertex, ends_of,
  get_down_vertexes, get_up_vertexes, get_vertex, get_vertices, root, vertex_exists,
}
use kform.Dag.Laws.{IsMirror, connect-IsMirror, get_vertex-add_vertex, linked}
use kform.Dag.Reduction.Coverage.{Reach, reduction_covers}
use kform.Dag.Reduction.Cycle.{IsEndless, reduction_diverges}
use kform.Dag.Reduction.Depth.{process_cuts}
use kform.Dag.Reduction.Invariant.{HasUp, IsOrder, IsReduced, reduction-IsReduced}
use kform.Dag.Reduction.Termination.{reduction_returns}
use kform.Dag.Reduction.Walk.{
  Order, Walk, add_vertex_depth, get_vertex_depth, init_vertex_depth_map,
  process_transitive_reduction, transitive_reduction,
}

abbrev in_order : Order
in_order n l = l

in_order-IsOrder : IsOrder in_order
in_order-IsOrder = record { visits = λ n l x. refl }

abbrev empty_dag : Dag ℕ
empty_dag = record {
  vertices = (root, 0) ∷ (str "a", 1) ∷ (str "b", 2) ∷ [];
  down_edges = [];
  up_edges = [];
  vertex_depth = [];
}

-- root → a, root → b and a → b
abbrev chain : Dag ℕ
unfolding connect
chain = connect (connect (connect empty_dag root (str "a")) root (str "b")) (str "a") (str "b")

program : Unit {0}
unfolding connect add_edge ends_of linked insert lookup add contains list_beq keys has_key
    transitive_reduction process_transitive_reduction get_up_vertexes get_down_vertexes get_vertices
    vertex_exists get_vertex_depth add_vertex_depth init_vertex_depth_map disconnect delete_edge
    delete
program = tt

abbrev walk_of : Dag ℕ → Walk ℕ
walk_of d = record { dag = d; ranges = 0 }

-- The reduction drops root → b, which a → b replaces.
chain_reduced :
    Option.map {B = Bool}
      (λ w. linked (w.dag.down_edges) root (str "b"))
      (transitive_reduction in_order 3 (walk_of chain))
    ≡ some false
unfolding program
chain_reduced = refl

-- root → u → v and root → x → w → v, and u does not lead to w
abbrev fork : Dag ℕ
unfolding connect
fork =
    let r = connect (connect empty_dag root (str "u")) root (str "x") in
    let m = connect (connect r (str "x") (str "w")) (str "u") (str "v") in
    record (connect m (str "w") (str "v")) {
      vertices = (root, 0) ∷ (str "u", 1) ∷ (str "x", 2) ∷ (str "w", 3) ∷ (str "v", 4) ∷ [];
    }

-- The reduction of `fork` loses u → v: nothing is left that makes `v` wait for `u`.
fork_loses :
    Option.map {B = Bool}
      (λ w. linked (w.dag.down_edges) (str "u") (str "v"))
      (transitive_reduction in_order 5 (walk_of fork))
    ≡ some false
unfolding program
fork_loses = refl

chain-IsMirror : IsMirror chain
unfolding program
chain-IsMirror =
    let d₁ = connect empty_dag root (str "a") in
    let d₂ = connect d₁ root (str "b") in
    connect-IsMirror d₂ (str "a") (str "b") (
      connect-IsMirror d₁ root (str "b")
        (connect-IsMirror empty_dag root (str "a") (record { mirror = λ u v. refl })))

abbrev rank_of : Str → ℕ
rank_of s = if s == root then 0 else if s == str "a" then 1 else 2

chain_ranked : (u v : Str) → linked (chain.down_edges) u v ≡ true → rank_of u < rank_of v
unfolding program
chain_ranked u v h = ground (
  arith,
  eq_iff root u,
  eq_iff u root,
  eq_iff (str "a") u,
  eq_iff u (str "a"),
  eq_iff (str "a") v,
  eq_iff (str "b") v,
  eq_iff v (str "a"),
  eq_iff v root,
)

-- The chain after its reduction.
abbrev reduced : Walk ℕ
reduced = record {
  dag = record {
    vertices = empty_dag.vertices;
    down_edges = (root, str "a" ∷ []) ∷ (str "a", str "b" ∷ []) ∷ [];
    up_edges = (str "a", root ∷ []) ∷ (str "b", str "a" ∷ []) ∷ [];
    vertex_depth = (str "b", 1) ∷ [];
  };
  ranges = 29;
}

chain_to_reduced : transitive_reduction in_order 3 (walk_of chain) ≡ some reduced
unfolding program
chain_to_reduced = refl

reduction-IsReduced_example : IsReduced chain (reduced.dag)
reduction-IsReduced_example =
    reduction-IsReduced in_order 3 (walk_of chain) reduced in_order-IsOrder chain-IsMirror
      chain_to_reduced

chain_covered : (v : Str) → vertex_exists chain v ≡ true → (v ≡ root) ⊎ HasUp chain v
unfolding program
chain_covered v h = elim (Bool-cases (root == v)) [
  | inl is_root ↦ inl (sym ((eq_iff root v).0 is_root))
  | inr other ↦ elim (Bool-cases (str "a" == v)) [
    | inl is_a ↦ inr (root, rw (← (eq_iff (str "a") v).0 is_a) refl)
    | inr still ↦ inr (root, ground (arith, eq_iff (str "b") v, eq_iff (str "a") v, eq_iff root v))
  ]
]

chain_closed : (u v : Str) → linked (chain.down_edges) u v ≡ true → vertex_exists chain u ≡ true
unfolding program
chain_closed u v h = ground (arith, eq_iff root u, eq_iff (str "a") u)

reduction_covers_example : Reach (reduced.dag) root (str "b")
unfolding program chain
reduction_covers_example =
    reduction_covers in_order 3 (walk_of chain) reduced rank_of in_order-IsOrder
      (record { mirrored = chain-IsMirror; covered = chain_covered; closed = chain_closed })
      chain_ranked chain_to_reduced (str "b") refl

rank_of_le : (s : Str) → rank_of s ≤ 2
rank_of_le s = ground (arith, eq_iff s root, eq_iff s (str "a"))

reduction_returns_example :
    (t : Walk ℕ) × (transitive_reduction in_order 3 (walk_of chain) ≡ some t)
reduction_returns_example =
    reduction_returns in_order (walk_of chain) (λ s. 2 - rank_of s) 3 in_order-IsOrder
      (λ u v h. omega (arith, chain_ranked u v h, rank_of_le u, rank_of_le v))
      (λ v h. omega (arith, rank_of_le v))

-- a block that depends on itself
abbrev looped : Dag ℕ
unfolding connect
looped = connect empty_dag (str "a") (str "a")

looped-IsEndless : IsEndless looped (λ s. str "a" == s)
unfolding program looped
looped-IsEndless = record {
  goes_on = λ v h. (str "a", ground (arith, eq_iff (str "a") v), refl);
  not_entered = λ v u out h. ground (arith, eq_iff (str "a") u);
}

reduction_diverges_example : transitive_reduction in_order 1000 (walk_of looped) ≡ none
unfolding program looped
reduction_diverges_example =
    reduction_diverges in_order (walk_of looped) (λ s. str "a" == s) (str "a") 1000 in_order-IsOrder
      looped-IsEndless refl refl

-- `fork` after the first walk from the root
abbrev marked : Dag ℕ
unfolding connect
marked = record fork {
  vertex_depth = (root, 1) ∷ (str "u", 2) ∷ (str "x", 2) ∷ (str "w", 3) ∷ (str "v", 4) ∷ [];
}

process_cuts_example :
    linked
      ((process_transitive_reduction in_order (walk_of marked) (str "v") 3).dag.down_edges)
      (str "u")
      (str "v")
    ≡ false
unfolding program
process_cuts_example =
    process_cuts in_order (walk_of marked) (str "u") (str "w") (str "v") 3 in_order-IsOrder refl
      refl (omega arith) (omega arith)

get_vertex-add_vertex_example :
    (vertex_exists chain (str "c") ≡ true)
      × (add_vertex chain (str "c") 3 ≡ err (duplicate_vertex (str "c")))
    ⊎ (vertex_exists chain (str "c") ≡ false)
      × ((d' : Dag ℕ) × (add_vertex chain (str "c") 3 ≡ ok d')
          × ((t : Str) → get_vertex d' t ≡ (if str "c" == t then ok 3 else get_vertex chain t)))
get_vertex-add_vertex_example = get_vertex-add_vertex chain (str "c") 3
