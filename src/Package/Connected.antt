-- ===== src/Package/Connected.antt =====
-- pkg/syntax/types/package.go: the edges of a package's graph.
use kform.Shared.{
  Assoc, Bool, Bool-cases, List, List-cases, Str, [], ap, arith, contains, eq_iff, eq_refl, false,
  has_key, inl, inr, length, lookup, nat_beq, not, refl, str_eq, subst, sym, true, ℕ, ◌&&◌, ◌<◌,
  ◌==◌, ◌||◌, ◌∙◌, ◌∷◌, ◌≡◌, ◌≢◌, ◌⊎◌,
}
use kform.Dag.Edges.{Dag, add_down_edge, add_up_edge, connect, root}
use kform.Dag.Laws.{IsMirror, connect-IsMirror, linked, linked-connect}
use kform.Package.Graph.{
  VertexContext, connect_deps, connect_vertex, connect_vertices, get_block_dependencies,
}

module _ {ℓ} {N : Type ℓ} where
  -- Does one of these vertices, under the name `v`, depend on `u`, or on nothing and `u` is the
  -- root?
  unfoldable pub depends : Assoc Str (VertexContext N) → Str → Str → Bool
  depends [] u v = false
  depends ((n, c) ∷ vs) u v =
      (n == v
        && (contains (get_block_dependencies c) u
            || (not (n == root) && (nat_beq (length (get_block_dependencies c)) 0 && root == u))))
      || depends vs u v

  linked-connect_deps :
      (n : Str) (deps : List Str) (d : Dag (VertexContext N)) (u v : Str)
      → linked (connect_deps n deps d).down_edges u v
        ≡ (linked d.down_edges u v || (n == v && contains deps u))
  unfolding connect_deps contains
  linked-connect_deps n [] d u v = ground arith
  linked-connect_deps n (dep ∷ deps) d u v = ground (
    arith,
    linked-connect_deps n deps (connect d dep n) u v,
    linked-connect d dep n u v,
    eq_iff dep u,
  )

  linked-connect_vertex :
      (n : Str) (c : VertexContext N) (d : Dag (VertexContext N)) (u v : Str)
      → linked (connect_vertex n c d).down_edges u v
        ≡ (linked d.down_edges u v || depends ((n, c) ∷ []) u v)
  unfolding connect_vertex depends
  linked-connect_vertex n c d u v =
      let deps = get_block_dependencies c in
      ground (
        arith,
        linked-connect_deps n deps d u v,
        linked-connect (connect_deps n deps d) root n u v,
        eq_iff n v,
      )

  -- After the loop the edges are those from before, the dependencies of the vertices, and one from
  -- the root to each other vertex without any.
  pub linked-connect_vertices :
      (vs : Assoc Str (VertexContext N)) (d : Dag (VertexContext N)) (u v : Str)
      → linked (connect_vertices vs d).down_edges u v ≡ (linked d.down_edges u v || depends vs u v)
  unfolding connect_vertices depends
  linked-connect_vertices [] d u v = ground arith
  linked-connect_vertices ((n, c) ∷ vs) d u v = ground (
    arith,
    linked-connect_vertices vs (connect_vertex n c d) u v,
    linked-connect_vertex n c d u v,
  )

  connect_deps-IsMirror :
      (n : Str) (deps : List Str) (d : Dag (VertexContext N))
      → IsMirror d
      → IsMirror (connect_deps n deps d)
  unfolding connect_deps
  connect_deps-IsMirror n [] d h = h
  connect_deps-IsMirror n (dep ∷ deps) d h =
      connect_deps-IsMirror n deps (connect d dep n) (connect-IsMirror d dep n h)

  connect_vertex-IsMirror :
      (n : Str) (c : VertexContext N) (d : Dag (VertexContext N))
      → IsMirror d
      → IsMirror (connect_vertex n c d)
  unfolding connect_vertex
  connect_vertex-IsMirror n c d h =
      let deps = get_block_dependencies c in
      let linked_deps = connect_deps-IsMirror n deps d h in
      elim (Bool-cases (not (n == root) && nat_beq (length deps) 0)) [
        | inl e ↦
            rw (connect_vertex, e) (connect-IsMirror (connect_deps n deps d) root n linked_deps)
        | inr e ↦ rw (connect_vertex, e) linked_deps
      ]

  pub connect_vertices-IsMirror :
      (vs : Assoc Str (VertexContext N)) (d : Dag (VertexContext N))
      → IsMirror d
      → IsMirror (connect_vertices vs d)
  unfolding connect_vertices
  connect_vertices-IsMirror [] d h = h
  connect_vertices-IsMirror ((n, c) ∷ vs) d h =
      connect_vertices-IsMirror vs (connect_vertex n c d) (connect_vertex-IsMirror n c d h)

  connect_deps-vertices :
      (n : Str) (deps : List Str) (d : Dag (VertexContext N))
      → (connect_deps n deps d).vertices ≡ d.vertices
  unfolding connect_deps connect add_up_edge add_down_edge
  connect_deps-vertices n [] d = refl
  connect_deps-vertices n (dep ∷ deps) d = connect_deps-vertices n deps (connect d dep n)

  connect_vertex-vertices :
      (n : Str) (c : VertexContext N) (d : Dag (VertexContext N))
      → (connect_vertex n c d).vertices ≡ d.vertices
  unfolding connect_vertex connect add_up_edge add_down_edge
  connect_vertex-vertices n c d =
      let deps = get_block_dependencies c in ground (arith, connect_deps-vertices n deps d)

  pub connect_vertices-vertices :
      (vs : Assoc Str (VertexContext N)) (d : Dag (VertexContext N))
      → (connect_vertices vs d).vertices ≡ d.vertices
  unfolding connect_vertices
  connect_vertices-vertices [] d = refl
  connect_vertices-vertices ((n, c) ∷ vs) d =
      connect_vertices-vertices vs (connect_vertex n c d) ∙ connect_vertex-vertices n c d

  -- Every vertex but the root depends on some vertex.
  pub depends_on_some :
      (vs : Assoc Str (VertexContext N)) (v : Str)
      → has_key v vs ≡ true
      → (v ≡ root) ⊎ ((u : Str) × (depends vs u v ≡ true))
  unfolding has_key lookup depends contains
  depends_on_some [] v h = cc
  depends_on_some ((n, c) ∷ vs) v h = elim (Bool-cases (n == v)) [
    | inl e ↦ elim (Bool-cases (n == root)) [
      | inl r ↦ inl (ground (arith, eq_iff n v, eq_iff n root))
      | inr r ↦ elim (List-cases (get_block_dependencies c)) [
        | inl none_there ↦ inr (root, ground (arith, none_there, eq_refl root))
        | inr (u, us, there) ↦ inr (u, ground (arith, there, eq_refl u))
      ]
    ]
    | inr e ↦ elim (depends_on_some vs v (ground arith)) [
      | inl r ↦ inl r
      | inr (u, l) ↦ inr (u, ground arith)
    ]
  ]

  -- Are the dependencies of a vertex vertices of a lower rank, and the root lower than each?
  unfoldable pub Ranked :
      (Str → ℕ) → Assoc Str (VertexContext N) → Assoc Str (VertexContext N) → Type 0
  Ranked rank all [] = Unit
  Ranked rank all ((n, c) ∷ vs) =
      ((u : Str)
        → contains (get_block_dependencies c) u ≡ true
        → (has_key u all ≡ true) × (rank u < rank n))
      × ((n ≢ root → rank root < rank n) × Ranked rank all vs)

  pub depends-Ranked :
      (rank : Str → ℕ) (all vs : Assoc Str (VertexContext N)) (u v : Str)
      → Ranked rank all vs
      → has_key root all ≡ true
      → depends vs u v ≡ true
      → (has_key u all ≡ true) × (rank u < rank v)
  unfolding Ranked depends
  depends-Ranked rank all [] u v r known h = cc
  depends-Ranked rank all ((n, c) ∷ vs) u v r known h = elim (Bool-cases (depends vs u v)) [
    | inl later ↦ depends-Ranked rank all vs u v r.1.1 known later
    | inr now ↦ elim (Bool-cases (contains (get_block_dependencies c) u)) [
      | inl named ↦ ground (arith, r.0 u named, eq_iff n v)
      | inr unnamed ↦
          let is_root : root ≡ u = ground (arith, eq_iff root u) in
          let is_v : n ≡ v = ground (arith, eq_iff n v) in
          let other : n ≢ root = λ e. ground (arith, eq_iff n root, e) in
          (
            ap (λ x. has_key x all) (sym is_root) ∙ known,
            subst (λ x. rank x < rank v) is_root
                (subst (λ x. rank root < rank x) is_v (r.1.0 other)),
          )
    ]
  ]
