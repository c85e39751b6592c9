-- ===== src/Package/Reached.antt =====
-- pkg/syntax/types/package.go: the reach of the root in the graph of `GenerateDAG`.
use mathlib.Core.Option.{some-injective}
use kform.Shared.{
  Assoc, Bool, Bool-cases, List, Option-cases, Storer, Str, [], ap, arith, contains, false, has_key,
  inl, inr, insert, list_beq, lookup, lookup-insert, refl, some, str_eq, subst, sym, true, ℕ, ◌<◌,
  ◌∙◌, ◌∷◌, ◌≡◌,
}
use kform.Dag.Edges.{Dag, add_vertex, ends_of, get_vertices, new, root, vertex_exists}
use kform.Dag.Laws.{IsMirror, linked}
use kform.Dag.Reduction.Coverage.{IsRooted, Reach, reduction_covers}
use kform.Dag.Reduction.Invariant.{IsOrder}
use kform.Dag.Reduction.Walk.{Order, Walk, transitive_reduction}
use kform.Package.Blocks.{Block}
use kform.Package.Connected.{
  Ranked, connect_vertices-IsMirror, connect_vertices-vertices, depends-Ranked, depends_on_some,
  linked-connect_vertices,
}
use kform.Package.Graph.{
  VertexContext, add_block_vertex, add_block_vertices, connect_vertices, generate_dag,
  generate_vertices, used_only, vertex_of, with_root,
}
use kform.Package.Intake.{Package}
use kform.Package.Listing.{input_options, list_blocks, vertex_options}
use kform.Package.Nodes.{Nodes}

module _ {ℓ} {N : Type ℓ} where
  -- A graph without edges that has the root.
  record IsBare (d : Dag (VertexContext N)) : Type ℓ where
    pub no_down : d.down_edges ≡ []
    pub no_up : d.up_edges ≡ []
    pub has_root : vertex_exists d root ≡ true

  add_block_vertex-IsBare :
      (d : Dag (VertexContext N)) (name : Str) (b : Block N)
      → IsBare d
      → IsBare (add_block_vertex d name b)
  unfolding add_block_vertex add_vertex vertex_exists has_key
  add_block_vertex-IsBare d name b h = elim (Bool-cases (has_key name d.vertices)) [
    | inl taken ↦ record {
      no_down = ground (arith, h.no_down);
      no_up = ground (arith, h.no_up);
      has_root = ground (arith, h.has_root);
    }
    | inr free ↦ record {
      no_down = ground (arith, h.no_down);
      no_up = ground (arith, h.no_up);
      has_root = ground (arith, h.has_root, lookup-insert name root (vertex_of name b) d.vertices);
    }
  ]

  add_block_vertices-IsBare :
      (m : Assoc Str (Block N)) (d : Dag (VertexContext N))
      → IsBare d
      → IsBare (add_block_vertices m d)
  unfolding add_block_vertices
  add_block_vertices-IsBare [] d h = h
  add_block_vertices-IsBare ((name, b) ∷ m) d h =
      add_block_vertices-IsBare m (add_block_vertex d name b) (add_block_vertex-IsBare d name b h)

  with_root-IsBare : (file name : Str) → IsBare (with_root file name)
  unfolding with_root add_vertex new vertex_exists has_key lookup insert list_beq
  with_root-IsBare file name = record { no_down = refl; no_up = refl; has_root = refl }

  bare_linked :
      (d : Dag (VertexContext N)) (u v : Str)
      → IsBare d
      → (linked d.down_edges u v ≡ false) × (linked d.up_edges v u ≡ false)
  unfolding linked ends_of contains lookup
  bare_linked d u v h = (ground (arith, h.no_down), ground (arith, h.no_up))

  -- Once connected, a bare graph is ready to be executed.
  IsBare-IsRooted :
      (d : Dag (VertexContext N)) (rank : Str → ℕ)
      → IsBare d
      → Ranked rank d.vertices d.vertices
      → IsRooted (connect_vertices d.vertices d)
  unfolding vertex_exists
  IsBare-IsRooted d rank h r =
      let vs = d.vertices in
      let bare : IsMirror d = record { mirror = λ u v. ground (arith, bare_linked d u v h) } in
      let mirrored = connect_vertices-IsMirror vs d bare in
      let same = connect_vertices-vertices vs d in
      record {
        mirrored = mirrored;
        covered = λ v known.
            elim (depends_on_some vs v (ap (λ m. has_key v m) (sym same) ∙ known)) [
              | inl e ↦ inl e
              | inr (u, l) ↦
                  inr (
                    u,
                    sym (mirrored.mirror u v) ∙ ground (arith, linked-connect_vertices vs d u v),
                  )
            ];
        closed = λ u v l.
            ap (λ m. has_key u m) same
            ∙ (depends-Ranked rank vs vs u v r h.has_root
                (ground (arith, linked-connect_vertices vs d u v, bare_linked d u v h))).0;
      }

  connected-Ranked :
      (d : Dag (VertexContext N)) (rank : Str → ℕ)
      → IsBare d
      → Ranked rank d.vertices d.vertices
      → (u v : Str) → linked (connect_vertices d.vertices d).down_edges u v ≡ true
      → rank u < rank v
  unfolding vertex_exists
  connected-Ranked d rank h r u v l =
      (depends-Ranked rank d.vertices d.vertices u v r h.has_root
        (ground (arith, linked-connect_vertices d.vertices d u v, bare_linked d u v h))).1

  module _ {κ} {S : Type κ} ⦃y : Nodes N⦄ ⦃st : Storer (Block N) S⦄ where
    generate_vertices-IsBare :
        (file : Str) (provider_dag : Bool) (used : List Str) (p : Package N S)
        → IsBare (generate_vertices file provider_dag used p)
    unfolding generate_vertices
    generate_vertices-IsBare file true used p =
        let configs = used_only used (st.list_entries p.provider_configs) in
        let inputs = list_blocks input_options p.blocks in
        let start_graph = with_root file p.pkg_name in
        add_block_vertices-IsBare configs (add_block_vertices inputs start_graph)
          (add_block_vertices-IsBare inputs start_graph (with_root-IsBare file p.pkg_name))
    generate_vertices-IsBare file false used p =
        add_block_vertices-IsBare (list_blocks vertex_options p.blocks) (with_root file p.pkg_name)
          (with_root-IsBare file p.pkg_name)

    -- If every dependency of a vertex is a vertex of a lower rank, and the root has a lower rank
    -- than any other vertex: if a graph is returned, its root leads to every vertex.
    pub generate_dag_reaches :
        (ord : Order) (fuel : ℕ) (file : Str) (provider_dag : Bool) (used : List Str)
        (p : Package N S) (t : Dag (VertexContext N)) (rank : Str → ℕ)
        → IsOrder ord
        → Ranked rank
            ((generate_vertices file provider_dag used p).vertices)
            ((generate_vertices file provider_dag used p).vertices)
        → generate_dag ord fuel file provider_dag used p ≡ some t
        → (v : Str) → vertex_exists (generate_vertices file provider_dag used p) v ≡ true
        → Reach t root v
    unfolding generate_dag get_vertices vertex_exists
    generate_dag_reaches ord fuel file provider_dag used p t rank order r e v known =
        let d = generate_vertices file provider_dag used p in
        let w : Walk (VertexContext N) = record {
          dag = connect_vertices d.vertices d;
          ranges = 0;
        } in
        let bare = generate_vertices-IsBare file provider_dag used p in
        elim (Option-cases (transitive_reduction ord fuel w)) [
          | inl stuck ↦ cc
          | inr (w', there) ↦
              let same : w'.dag ≡ t = some-injective (w'.dag) t (ground arith) in
              subst (λ x. Reach x root v) same
                (reduction_covers ord fuel w w' rank order (IsBare-IsRooted d rank bare r)
                  (connected-Ranked d rank bare r) there v
                  (ap (λ m. has_key v m) (connect_vertices-vertices d.vertices d) ∙ known))
        ]
