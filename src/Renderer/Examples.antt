-- ===== src/Renderer/Examples.antt =====
-- Tests and examples for the dependencies of a block: a document is its annotations and its YAML.
use kform.Shared.{
  Assoc, List, Str, [], add, any, contains, contains_text, false, has_prefix, list_beq, lookup,
  refl, split, str, str_eq, ◌∷◌, ◌≡◌,
}
use kform.Package.BlockTypes.{local}
use kform.Package.Blocks.{Block, get_attributes}
use kform.Package.Nodes.{Nodes, annotation_at, key_depends_on}
use kform.Renderer.Dependencies.{
  contains_some, find_dependencies, note, note_contained, note_if, note_parts, render_string,
  resolve_depends_on, with_dependencies,
}
use kform.Renderer.Found.{depends_by, with_dependencies_lem}
use kform.Renderer.Walk.{Yaml, mapping, no_pairs, pair, render, render_scalar, scalar}

abbrev Doc : Type 0
Doc = Assoc Str Str × Yaml

instance abbrev yaml_nodes : Nodes Doc
yaml_nodes = record {
  is_nil = λ d. false;
  copy = λ d. d;
  annotations = λ d. d.0;
  node_name = λ d. str "b";
  node_namespace = λ d. str "default";
  node_api_version = λ d. str "v1";
  node_kind = λ d. str "Thing";
  annotations-copy = λ d. refl;
}

abbrev text_of : Str → Yaml
text_of s = scalar (str "!!str") s

-- A value that reads an input whose name starts with that of another one.
abbrev reading_b : Doc
reading_b = (
  (key_depends_on, str "local.c") ∷ [],
  mapping (pair (text_of (str "local.c")) (text_of (str "input.ab + 1")) no_pairs),
)

abbrev reading_block : Block Doc
reading_block = record {
  block_type = local;
  block_name = str "local.b";
  file_names = [];
  index = [];
  package_name = str "p";
  block_data = reading_b ∷ [];
  attributes = get_attributes local reading_b;
  dependencies = [];
  pkg_dependencies = [];
}

abbrev block_names : List Str
block_names = str "input.a" ∷ str "input.ab" ∷ str "local.c" ∷ []

dependencies_example :
    contains ((with_dependencies (λ d. d.1) block_names reading_block).dependencies) (str "local.c")
    ≡ any (depends_by (λ d. d.1) block_names (str "local.c")) (reading_b ∷ [])
dependencies_example = with_dependencies_lem (λ d. d.1) block_names reading_block (str "local.c")

-- The block depends on input.a too, which it does not read.
prefix_counts : (with_dependencies (λ d. d.1) block_names reading_block).dependencies ≡ block_names
unfolding with_dependencies find_dependencies resolve_depends_on annotation_at note_parts split
    render render_scalar render_string note_contained note_if note contains_text contains_some add
    has_prefix lookup list_beq
prefix_counts = refl
