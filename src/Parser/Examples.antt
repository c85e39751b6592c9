-- ===== src/Parser/Examples.antt =====
-- An example for the parser: an input and a local that reads it.
use kform.Shared.{
  All, Assoc, List, Option, Storer, Str, [], add, assoc_store, contains, contains_text, delete,
  false, first_part, has_key, has_prefix, insert, keys, list_beq, lookup, none, refl, some, split,
  str, str_eq, true, ℕ, ◌∷◌, ◌≡◌,
}
use kform.Package.BlockTypes.{get_block_type, type_name, unknown}
use kform.Package.Blocks.{Block, Ctx, get_attributes, new_block, provider_of}
use kform.Package.Intake.{
  Intake, Package, append_data, block_name_of, create_block, name_of, on_blocks, with_package,
}
use kform.Package.Listing.{
  excluded, has_some_prefix, is_orphan, list_blocks, list_providers_from_resources,
  provider_check_options, provider_names, resolve_blocks, resolve_dag_dependencies,
  resolve_dependencies, resolve_dependency, resolve_providers, resolve_resource_to_provider_config,
  select_blocks,
}
use kform.Package.Nodes.{Nodes, annotation_at, key_block_type}
use kform.Package.Resolved.{all_blocks_follow}
use kform.Package.Validator.{validate_annotations, warn_ignored}
use kform.Parser.Checks.{
  delete_all, get_provider_configs, has_backend, pkg_dependencies_of, record_unless,
  require_configs, require_mixins, require_outputs, unreferenced, used_configs, validate_backend,
  validate_mixins, validate_provider_configs, validate_unreferenced_configs,
}
use kform.Parser.Documents.{
  finish_package_parse, new_package, parse_package_documents, resolve_package,
}
use kform.Parser.Parse.{
  Parsed, make_graphs, parse_after_package, parse_kform, stopped, validate_package,
}
use kform.Parser.Placed.{HasPlace}
use kform.Parser.Sound.{IsConfigured, Sound, parse_kform-Sound}
use kform.Parser.Tasks.{
  act_on, all_ended, check_document, create_at, entry_at, expected_of, held_at, is_unknown,
  kind_of_node, look, look_as, look_in, place_of, run_tasks, start_tasks, step_at, step_task,
  store_data, syntax_error, takes_more, target_name, with_kind,
}
use kform.Recorder.{has_error}
use kform.Renderer.Dependencies.{
  add_all_dependencies, add_dependencies, find_dependencies, note, note_contained, note_if,
  render_string, resolve_depends_on, with_dependencies,
}
use kform.Renderer.Walk.{Yaml, other_node, render, render_scalar, scalar}

abbrev Doc : Type 0
Doc = Assoc Str Str × Str × Yaml

instance abbrev doc_nodes : Nodes Doc
doc_nodes = record {
  is_nil = λ d. false;
  copy = λ d. d;
  annotations = λ d. d.0;
  node_name = λ d. d.1;
  node_namespace = λ d. str "default";
  node_api_version = λ d. str "v1";
  node_kind = λ d. str "Thing";
  annotations-copy = λ d. refl;
}

abbrev Blocks : Type 0
Blocks = Assoc Str (Block Doc)

instance abbrev doc_store : Storer (Block Doc) Blocks
doc_store = assoc_store (Block Doc)

abbrev ctx_of : Doc → Ctx Doc
ctx_of d = record {
  ctx_block_type = unknown;
  node = d;
  file_name = str "f";
  ctx_index = str "0";
  ctx_package_name = str "p";
  context_text = [];
}

abbrev documents : List (Ctx Doc)
documents =
    ctx_of ((key_block_type, str "input") ∷ [], str "a", other_node)
    ∷ ctx_of ((key_block_type, str "local") ∷ [], str "b", scalar (str "!!str") (str "input.a"))
    ∷ []

abbrev result_of : Option (Parsed Doc Blocks) → Parsed Doc Blocks
result_of none = stopped none []
result_of (some out) = out

-- The two goroutines take turns, and all have ended.
abbrev taking_turns : List ℕ
taking_turns = 1 ∷ 0 ∷ 1 ∷ 0 ∷ []

abbrev parsed : Parsed Doc Blocks
parsed = result_of (
    parse_kform (λ n xs. xs) 4 (str "f") (str "p") (λ d. d.2) (λ n b. n) (str "p") [] taking_turns
      documents)

parse_example :
    (p : Package Doc Blocks) × Sound (λ n xs. xs) 4 (str "f") p parsed
    × (p.is_mixin ≡ false)
    × All (λ c. HasPlace c p) documents
    × (all_blocks_follow p (doc_store.list_entries (p.blocks)) ≡ true)
    × All (IsConfigured p) (list_blocks provider_check_options (p.blocks))
unfolding parse_kform parse_after_package validate_package make_graphs get_provider_configs
    used_configs contains parse_package_documents run_tasks step_at step_task start_tasks all_ended
    look look_as look_in check_document act_on store_data with_kind place_of takes_more expected_of
    target_name syntax_error entry_at held_at create_at kind_of_node is_unknown append_data
    create_block block_name_of name_of with_package on_blocks finish_package_parse add_dependencies
    add_all_dependencies with_dependencies find_dependencies render render_scalar render_string
    note_contained note_if note contains_text resolve_depends_on resolve_package
    resolve_dag_dependencies resolve_blocks resolve_dependencies resolve_dependency
    resolve_resource_to_provider_config resolve_providers list_blocks select_blocks excluded
    has_some_prefix is_orphan has_prefix validate_provider_configs require_configs record_unless
    list_providers_from_resources provider_names validate_mixins require_mixins require_outputs
    pkg_dependencies_of validate_unreferenced_configs unreferenced delete_all delete
    validate_backend has_backend has_error lookup insert list_beq keys annotation_at type_name
    get_block_type first_part add validate_annotations warn_ignored has_key get_attributes
    provider_of new_block split
parse_example =
    parse_kform-Sound (λ n xs. xs) 4 (str "f") (str "p") (λ d. d.2) (λ n b. n) (str "p") []
      taking_turns documents parsed refl refl

-- Two documents of one input.
abbrev two_of_one : List (Ctx Doc)
two_of_one =
    ctx_of ((key_block_type, str "input") ∷ [], str "a", other_node)
    ∷ ctx_of ((key_block_type, str "input") ∷ [], str "a", scalar (str "!!str") (str "x"))
    ∷ []

abbrev intake : Intake Doc Blocks
intake = record { pkg = some (new_package (str "p") []); records = [] }

-- If both ask for the block before one creates it, the second one is refused as a duplicate; one
-- after the other they are both taken.
racing_refused :
    let racing = run_tasks (0 ∷ 1 ∷ 0 ∷ 1 ∷ []) (start_tasks two_of_one) intake in
    let in_turn = run_tasks (0 ∷ 0 ∷ 1 ∷ 1 ∷ 1 ∷ []) (start_tasks two_of_one) intake in
    (has_error (racing.1.records) ≡ true) × (has_error (in_turn.1.records) ≡ false)
unfolding run_tasks step_at step_task start_tasks look look_as look_in check_document act_on
    store_data with_kind place_of takes_more expected_of target_name syntax_error entry_at held_at
    create_at kind_of_node is_unknown append_data create_block block_name_of name_of with_package
    on_blocks has_error lookup insert list_beq keys annotation_at type_name get_block_type
    validate_annotations warn_ignored has_key get_attributes provider_of new_block contains
    has_prefix
racing_refused = (refl, refl)
