-- ===== src/Diff/Examples.antt =====
-- Tests and examples for the differ: a document is its kind, its name and its data, and is its own
-- object.
use kform.Shared.{
  Assoc, Str, [], assoc_store, false, has_key, insert, keys, list_beq, lookup, none, ok, refl, some,
  str, str_eq, true, ◌-◌, ◌∷◌, ◌≡◌,
}
use kform.Data.BlockStore.{delete_block_store_entry, delete_node, get_block_store_entry, get_item}
use kform.Diff.Differ.{
  DiffEnv, DiffState, after_print, all_items, block_items, data_from, delete_store_item,
  get_store_item, is_secret, keep_object, mask, package_items, patch, print_both, print_from,
  print_to, run_differ_on, shown, visit_all, visit_from, visit_to,
}
use kform.Diff.Masker.{
  Data, mask_after, mask_before, mask_data, mask_data_lem, mask_key, mask_keys, mask_rest,
  masked_from, masked_to,
}
use kform.Diff.Pruned.{left_count, run_differ_on-count, wanted_count}
use kform.Package.Nodes.{BlockData, Nodes}

abbrev Doc : Type 0
Doc = Str × Str × Data

abbrev doc_nodes : Nodes Doc
doc_nodes = record {
  is_nil = λ d. false;
  copy = λ d. d;
  annotations = λ d. [];
  node_name = λ d. d.1;
  node_namespace = λ d. str "default";
  node_api_version = λ d. str "v1";
  node_kind = λ d. d.0;
  annotations-copy = λ d. refl;
}

abbrev Docs : Type 0
Docs = Assoc Str (BlockData Doc)

abbrev Packages : Type 0
Packages = Assoc Str Docs

abbrev list_diff : DiffEnv Doc Doc Docs Packages
list_diff = record {
  diff_nodes = doc_nodes;
  docs_store = assoc_store (BlockData Doc);
  pkgs_store = assoc_store Docs;
  file_name_of = λ n. ok (n.1);
  to_object = λ n. ok n;
  version_of = λ o. str "v1";
  kind_of = λ o. o.0;
  data_of = λ o. ok (some (o.2));
  with_data = λ m o. ok (o.0, o.1, m);
  write_error = λ file o. none;
}

abbrev pod : Str → Doc
pod image = (str "Pod", str "web", (str "image", image) ∷ [])

abbrev job : Doc
job = (str "Job", str "once", [])

abbrev secret : Doc
secret = (str "Secret", str "key", (str "password", str "1234") ∷ [])

abbrev in_root : BlockData Doc → Packages
in_root docs = (str "root", (str "k8s.a", docs) ∷ []) ∷ []

masked_example :
    (lookup (str "b") ((mask_data ((str "b", str "1") ∷ []) ((str "b", str "2") ∷ [])).0)
      ≡ some mask_before)
    × (lookup (str "b") ((mask_data ((str "b", str "1") ∷ []) ((str "b", str "2") ∷ [])).1)
        ≡ some mask_after)
unfolding lookup list_beq masked_from masked_to
masked_example = mask_data_lem ((str "b", str "1") ∷ []) ((str "b", str "2") ∷ []) (str "b")

abbrev compared : Packages → DiffState Doc Packages
compared wanted = run_differ_on list_diff (some wanted) (in_root (pod (str "old") ∷ job ∷ []))

-- The job is left over, and the pod is not.
pruned_example :
    left_count list_diff
      ((compared (in_root (pod (str "new") ∷ []))).from_store)
      (str "root")
      (str "k8s.a")
      job
    ≡ left_count list_diff (in_root (pod (str "old") ∷ job ∷ [])) (str "root") (str "k8s.a") job
      - wanted_count list_diff
          (all_items list_diff (in_root (pod (str "new") ∷ [])))
          (str "root")
          (str "k8s.a")
          job
unfolding run_differ_on visit_all visit_to visit_from all_items package_items block_items
    get_store_item get_block_store_entry get_item lookup insert list_beq shown is_secret mask
    data_from patch print_both after_print print_to print_from keep_object delete_store_item
    delete_block_store_entry delete_node mask_data mask_keys mask_key mask_rest has_key keys
pruned_example =
    run_differ_on-count list_diff (in_root (pod (str "new") ∷ []))
      (in_root (pod (str "old") ∷ job ∷ [])) (str "root") (str "k8s.a") job (refl, refl)

-- Both files of the pod show the new image.
pod_unchanged :
    (compared (in_root (pod (str "new") ∷ []))).from_files
    ≡ (str "web", pod (str "new")) ∷ (str "once", job) ∷ []
unfolding run_differ_on visit_all visit_to visit_from all_items package_items block_items
    get_store_item get_block_store_entry get_item lookup insert list_beq shown is_secret mask
    data_from patch print_both after_print print_to print_from keep_object delete_store_item
    delete_block_store_entry delete_node mask_data mask_keys mask_key mask_rest has_key keys
pod_unchanged = refl

-- A secret that does not exist yet makes the differ panic.
new_secret_panics : (compared (in_root (secret ∷ []))).diff_panicked ≡ true
unfolding run_differ_on visit_all visit_to visit_from all_items package_items block_items
    get_store_item get_block_store_entry get_item lookup insert list_beq shown is_secret mask
    data_from patch print_both after_print print_to print_from keep_object delete_store_item
    delete_block_store_entry delete_node mask_data mask_keys mask_key mask_rest has_key keys
new_secret_panics = refl
