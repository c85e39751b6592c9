-- ===== src/Package/Graph.antt =====
-- pkg/syntax/types/package.go: `GenerateDAG`, and pkg/syntax/types/vertex_context.go.
use kform.Shared.{
  Assoc, Bool, List, Option, Storer, Str, [], add, contains, err, if◌then◌else◌, length, nat_beq,
  none, not, ok, some, str, str_eq, ℕ, ◌&&◌, ◌==◌, ◌∷◌,
}
use kform.Dag.Edges.{Dag, add_vertex, connect, get_vertices, new, root}
use kform.Dag.Reduction.Walk.{Order, transitive_reduction}
use kform.Package.BlockTypes.{BlockType, root_block}
use kform.Package.Blocks.{Attributes, Block, get_file_name}
use kform.Package.Intake.{Package}
use kform.Package.Listing.{input_options, list_blocks, vertex_options}
use kform.Package.Nodes.{BlockData, Nodes}

pub record VertexContext {ℓ} (N : Type ℓ) : Type ℓ where
  pub vertex_file : Str
  pub vertex_index : Str
  pub vertex_package : Str
  pub vertex_type : BlockType
  pub vertex_block : Str
  pub vertex_data : BlockData N
  pub vertex_attributes : Option Attributes
  pub vertex_dependencies : List Str
  pub vertex_pkg_dependencies : List Str

-- `LocalVars` of apis/pkg/v1alpha1/loop_types.go
abbrev pub local_vars : List Str
local_vars = str "count.index" ∷ str "each.key" ∷ str "each.value" ∷ []

-- The loop of `GetBlockDependencies`.
unfoldable pub without_loop_vars : List Str → List Str
without_loop_vars [] = []
without_loop_vars (k ∷ ks) =
    let rest = without_loop_vars ks in if contains local_vars k then rest else add k rest

module _ {ℓ} {N : Type ℓ} where
  unfoldable pub get_block_dependencies : VertexContext N → List Str
  unfolding without_loop_vars
  get_block_dependencies v = without_loop_vars v.vertex_dependencies

  unfoldable pub vertex_of : Str → Block N → VertexContext N
  unfolding get_file_name
  vertex_of name b = record {
    vertex_file = get_file_name b;
    vertex_index = b.index;
    vertex_package = b.package_name;
    vertex_type = b.block_type;
    vertex_block = name;
    vertex_data = b.block_data;
    vertex_attributes = some b.attributes;
    vertex_dependencies = b.dependencies;
    vertex_pkg_dependencies = b.pkg_dependencies;
  }

  -- `addVertex` drops the error of `AddVertex`.
  unfoldable pub add_block_vertex : Dag (VertexContext N) → Str → Block N → Dag (VertexContext N)
  unfolding add_vertex vertex_of
  add_block_vertex d name b = elim (add_vertex d name (vertex_of name b)) [ ok d' ↦ d' | err _ ↦ d ]

  unfoldable pub add_block_vertices :
      Assoc Str (Block N) → Dag (VertexContext N) → Dag (VertexContext N)
  unfolding add_block_vertex
  add_block_vertices [] d = d
  add_block_vertices ((name, b) ∷ m) d = add_block_vertices m (add_block_vertex d name b)

  -- The provider configurations that are used.
  unfoldable pub used_only : List Str → Assoc Str (Block N) → Assoc Str (Block N)
  used_only used [] = []
  used_only used ((name, b) ∷ m) =
      let rest = used_only used m in if contains used name then (name, b) ∷ rest else rest

  -- The vertex of the package itself; `file` is `filepath.Join(r.SourceDir, "provider")`.
  unfoldable pub root_vertex : Str → Str → VertexContext N
  root_vertex file name = record {
    vertex_file = file;
    vertex_index = [];
    vertex_package = name;
    vertex_type = root_block;
    vertex_block = name;
    vertex_data = [];
    vertex_attributes = none;
    vertex_dependencies = [];
    vertex_pkg_dependencies = [];
  }

  unfoldable pub with_root : Str → Str → Dag (VertexContext N)
  unfolding new add_vertex root_vertex
  with_root file name = elim (add_vertex new root (root_vertex file name)) [
    | ok d ↦ d
    | err _ ↦ new
  ]

  -- The dependencies of one vertex.
  unfoldable pub connect_deps : Str → List Str → Dag (VertexContext N) → Dag (VertexContext N)
  unfolding connect
  connect_deps n [] d = d
  connect_deps n (dep ∷ deps) d = connect_deps n deps (connect d dep n)

  unfoldable pub connect_vertex :
      Str → VertexContext N → Dag (VertexContext N) → Dag (VertexContext N)
  unfolding connect_deps connect get_block_dependencies
  connect_vertex n v d =
      let deps = get_block_dependencies v in
      let d' = connect_deps n deps d in
      if not (n == root) && nat_beq (length deps) 0 then connect d' root n else d'

  -- The loop over the vertices.
  unfoldable pub connect_vertices :
      Assoc Str (VertexContext N) → Dag (VertexContext N) → Dag (VertexContext N)
  unfolding connect_vertex
  connect_vertices [] d = d
  connect_vertices ((n, v) ∷ vs) d = connect_vertices vs (connect_vertex n v d)

  module _ {κ} {S : Type κ} ⦃y : Nodes N⦄ ⦃st : Storer (Block N) S⦄ where
    -- The inner `generateDAG`: the vertices, for the providers or for the package.
    unfoldable pub generate_vertices : Str → Bool → List Str → Package N S → Dag (VertexContext N)
    unfolding add_block_vertices with_root list_blocks used_only
    generate_vertices file provider_dag used p =
        let d = with_root file p.pkg_name in
        if provider_dag
        then add_block_vertices (used_only used (st.list_entries p.provider_configs))
            (add_block_vertices (list_blocks input_options p.blocks) d)
        else add_block_vertices (list_blocks vertex_options p.blocks) d

    -- `GenerateDAG`; none if the reduction does not return with this recursion depth.
    unfoldable pub generate_dag :
        Order → ℕ → Str → Bool → List Str → Package N S → Option (Dag (VertexContext N))
    unfolding generate_vertices connect_vertices transitive_reduction get_vertices
    generate_dag ord fuel file provider_dag used p =
        let d = generate_vertices file provider_dag used p in
        elim (transitive_reduction ord fuel
          (record { dag = connect_vertices (get_vertices d) d; ranges = 0 })) [
            | none ↦ none
            | some t ↦ some (t.dag)
          ]
