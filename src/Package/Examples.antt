-- ===== src/Package/Examples.antt =====
-- Tests and examples for the intake of documents and the graph of a package.
use kform.Shared.{
  Assoc, List, Storer, Str, [], add, arith, assoc_store, contains, delete, eq_iff, false, has_key,
  has_prefix, if◌then◌else◌, insert, keys, list_beq, lookup, none, not, refl, some, str, str_eq,
  subst, true, ℕ, ◌<◌, ◌==◌, ◌||◌, ◌↔◌, ◌∷◌, ◌≡◌,
}
use kform.Dag.Edges.{
  Dag, add_down_edge, add_edge, add_up_edge, add_vertex, connect, delete_down_edge, delete_edge,
  delete_up_edge, disconnect, ends_of, get_down_vertexes, get_up_vertexes, get_vertices, new, root,
  vertex_exists,
}
use kform.Dag.Laws.{linked}
use kform.Dag.Reduction.Coverage.{Reach}
use kform.Dag.Reduction.Walk.{
  add_vertex_depth, best_of, cut, enter, get_vertex_depth, init_vertex_depth_map,
  process_transitive_reduction, reduce_from, transitive_reduction, trwalk, walk_all,
}
use kform.Package.BlockTypes.{BlockType, input, local, type_name}
use kform.Package.Blocks.{Block, Ctx, get_attributes}
use kform.Package.Connected.{Ranked, depends, linked-connect_vertices}
use kform.Package.Graph.{
  VertexContext, add_block_vertex, add_block_vertices, connect_deps, connect_vertex,
  connect_vertices, generate_dag, generate_vertices, get_block_dependencies, root_vertex, vertex_of,
  with_root, without_loop_vars,
}
use kform.Package.Growth.{Handled}
use kform.Package.Handlers.{initialize_block-Handled}
use kform.Package.Intake.{Package, block_name_of, local_annotations, name_of}
use kform.Package.Listing.{
  excluded, has_some_prefix, is_orphan, list_blocks, resolve_dag_dependencies, select_blocks,
}
use kform.Package.Locals.{clash, first_of, take_locals, take_locals_lem}
use kform.Package.Nodes.{Nodes, annotation_at, key_resource_id}
use kform.Package.Reached.{generate_dag_reaches}
use kform.Package.Resolved.{all_blocks_follow, resolve_dag_dependencies-has_error}
use kform.Package.Update.{initialize_block, input_update}
use kform.Package.Validator.{
  Matches, is_letter, validate_annotations, validate_annotations-has_error,
  validate_resource_syntax, validate_resource_syntax_lem,
}
use kform.Recorder.{Records, has_error, resource_type_syntax}

-- A document: its annotations and its name.
abbrev Doc : Type 0
Doc = Assoc Str Str × Str

instance abbrev doc_nodes : Nodes Doc
doc_nodes = record {
  is_nil = λ d. false;
  copy = λ d. d;
  annotations = λ d. d.0;
  node_name = λ d. d.1;
  node_namespace = λ d. str "default";
  node_api_version = λ d. str "v1";
  node_kind = λ d. str "Thing";
  annotations-copy = λ d. refl;
}

abbrev Blocks : Type 0
Blocks = Assoc Str (Block Doc)

instance abbrev doc_store : Storer (Block Doc) Blocks
doc_store = assoc_store (Block Doc)

abbrev ctx_of : BlockType → Doc → Ctx Doc
ctx_of k d = record {
  ctx_block_type = k;
  node = d;
  file_name = str "f";
  ctx_index = str "0";
  ctx_package_name = str "p";
  context_text = [];
}

abbrev empty_package : Package Doc Blocks
empty_package = record {
  pkg_name = str "p";
  is_mixin = false;
  pkg_backend = none;
  provider_configs = [];
  blocks = [];
}

abbrev doc_a : Ctx Doc
doc_a = ctx_of input ([], str "a")

abbrev doc_b : Ctx Doc
doc_b = ctx_of input ((key_resource_id, str "a") ∷ [], str "b")

abbrev local_a : Ctx Doc
local_a = ctx_of local ([], str "a")

abbrev local_b : Ctx Doc
local_b = ctx_of local ((key_resource_id, str "a") ∷ [], str "b")

take_locals_example :
    (p' : Package Doc Blocks) × (rs' : Records) × (take_locals
        (local_a ∷ local_b ∷ [])
        (record { pkg = some empty_package; records = [] })
      ≡ record { pkg = some p'; records = rs' })
    × ((name : Str)
        → doc_store.get_entry name p'.blocks
          ≡ first_of (doc_store.get_entry name empty_package.blocks) name (local_a ∷ local_b ∷ []))
    × (has_error rs' ≡ (
        has_error []
        || clash (λ j. doc_store.get_entry j empty_package.blocks) (local_a ∷ local_b ∷ [])))
take_locals_example = take_locals_lem (local_a ∷ local_b ∷ []) empty_package []

-- The second local is a duplicate.
second_clashes : clash (λ j. none) (local_a ∷ local_b ∷ []) ≡ true
unfolding clash block_name_of name_of annotation_at lookup list_beq type_name
second_clashes = refl

initialize_block_example :
    Handled doc_store
      (record { pkg = some empty_package; records = [] })
      (input_update doc_a (record { pkg = some empty_package; records = [] }))
unfolding initialize_block
initialize_block_example =
    initialize_block-Handled input input_update refl doc_a
      (record { pkg = some empty_package; records = [] })

annotations_example : has_error (validate_annotations local_annotations local_a []) ≡ has_error []
annotations_example = validate_annotations-has_error local_annotations local_a []

syntax_example : (validate_resource_syntax (str "k8s_pod") ≡ none) ↔ Matches (str "k8s_pod")
syntax_example = validate_resource_syntax_lem (str "k8s_pod")

-- A type that starts with a digit is refused.
digit_refused : validate_resource_syntax (str "8s") ≡ some (resource_type_syntax (str "8s"))
unfolding validate_resource_syntax is_letter
digit_refused = refl

-- An input, and a local that depends on it.
abbrev input_block_a : Block Doc
input_block_a = record {
  block_type = input;
  block_name = str "input.a";
  file_names = str "f" ∷ [];
  index = str "0";
  package_name = str "p";
  block_data = ([], str "a") ∷ [];
  attributes = get_attributes ⦃y = doc_nodes⦄ input ([], str "a");
  dependencies = [];
  pkg_dependencies = [];
}

abbrev local_block_b : Block Doc
local_block_b = record input_block_a {
  block_type = local;
  block_name = str "local.b";
  dependencies = str "input.a" ∷ [];
}

abbrev two_blocks : Package Doc Blocks
two_blocks = record empty_package {
  blocks = (str "input.a", input_block_a) ∷ (str "local.b", local_block_b) ∷ [];
}

resolved_example : has_error (resolve_dag_dependencies (λ n b. n) two_blocks []) ≡ (
    has_error [] || not (all_blocks_follow two_blocks (doc_store.list_entries two_blocks.blocks)))
resolved_example = resolve_dag_dependencies-has_error (λ n b. n) two_blocks []

abbrev name_rank : Str → ℕ
name_rank s = if s == root then 0 else if s == str "input.a" then 1 else 2

abbrev vertices_of : List (Str × VertexContext Doc)
vertices_of = (generate_vertices (str "f") false [] two_blocks).vertices

abbrev program : Unit {0}
unfolding generate_dag generate_vertices add_block_vertices add_block_vertex add_vertex with_root
    new list_blocks select_blocks excluded is_orphan has_some_prefix has_prefix annotation_at lookup
    insert list_beq has_key connect_vertices connect_vertex connect_deps connect add_down_edge
    add_up_edge add_edge ends_of get_block_dependencies without_loop_vars contains add delete
    transitive_reduction reduce_from trwalk enter walk_all process_transitive_reduction cut best_of
    disconnect delete_down_edge delete_up_edge delete_edge get_up_vertexes get_down_vertexes
    get_vertices vertex_exists get_vertex_depth add_vertex_depth init_vertex_depth_map keys
    vertex_of root_vertex linked
program = tt

abbrev made_graph : Dag (VertexContext Doc)
made_graph = elim (generate_dag (λ n xs. xs) 4 (str "f") false [] two_blocks) [
  | none ↦ new
  | some t ↦ t
]

made_graph_returned : generate_dag (λ n xs. xs) 4 (str "f") false [] two_blocks ≡ some made_graph
unfolding program
made_graph_returned = refl

two_blocks-Ranked : Ranked name_rank vertices_of vertices_of
unfolding program Ranked
two_blocks-Ranked = (
  (λ u h. cc),
  (
    λ h. absurd (h refl),
    (
      (λ u h. cc),
      (
        λ h. omega arith,
        (
          (λ u h.
              subst (λ x. (has_key x vertices_of ≡ true) × (name_rank x < 2))
                ((eq_iff (str "input.a") u).0 (ground arith)) (refl, omega arith)),
          (λ h. omega arith, tt),
        ),
      ),
    ),
  ),
)

generate_dag_example : Reach made_graph root (str "local.b")
unfolding program
generate_dag_example =
    generate_dag_reaches (λ n xs. xs) 4 (str "f") false [] two_blocks made_graph name_rank
      (record { visits = λ n l x. refl }) two_blocks-Ranked made_graph_returned (str "local.b") refl

linked-connect_example :
    linked (connect_vertices vertices_of made_graph).down_edges (str "input.a") (str "local.b") ≡ (
      linked made_graph.down_edges (str "input.a") (str "local.b")
      || depends vertices_of (str "input.a") (str "local.b"))
linked-connect_example =
    linked-connect_vertices vertices_of made_graph (str "input.a") (str "local.b")
