-- ===== src/Functions/Examples.antt =====
-- Tests and examples for the functions of blocks: documents are annotations and a name, the
-- cluster is an association list of objects by name.
use kform.Shared.{
  Assoc, Bool, Option, Result, Str, [], ap, arith, assoc_store, eq_iff, erase, err, false,
  if◌then◌else◌, insert, list_beq, lookup, lookup-insert, none, ok, ok-injective, refl, some, str,
  str_eq, true, ◌==◌, ◌∷◌, ◌≡◌, ◌≢◌,
}
use kform.Data.VarData.{VarData, dummy_key}
use kform.Functions.Cluster.{Cluster, SameWorld}
use kform.Functions.Defaults.{Registers, run_input_lem, run_provider-Registers}
use kform.Functions.Destroy.{SameRecords, run_resource-SameRecords}
use kform.Functions.Documents.{iterate_all-first}
use kform.Functions.DryRun.{run_resource-SameWorld}
use kform.Functions.Loop.{LoopState, iterate_all, run_resource}
use kform.Functions.Packages.{PackageState, copy_inputs, run_package, run_package-get}
use kform.Functions.Resource.{get_object, put_after_get, put_object, reply_of, update_object}
use kform.Functions.Values.{ProviderState, Values, get_var_data, run_input, run_provider, values_of}
use kform.Functions.World.{Client, Env, FnConfig, Response, inventory_run, regular_run}
use kform.Package.BlockTypes.{BlockType, input, provider, resource}
use kform.Package.Blocks.{Attributes, get_attributes}
use kform.Package.Graph.{VertexContext}
use kform.Package.Nodes.{BlockData, Nodes, key_provider, key_resource_type}

abbrev Doc : Type 0
Doc = Assoc Str Str × Str

-- A name and what is kept under it.
abbrev Object : Type 0
Object = Str × Str

abbrev Objects : Type 0
Objects = Assoc Str Object

abbrev doc_nodes : Nodes Doc
doc_nodes = record {
  is_nil = λ d. false;
  copy = λ d. d;
  annotations = λ d. d.0;
  node_name = λ d. d.1;
  node_namespace = λ d. str "default";
  node_api_version = λ d. str "v1";
  node_kind = λ d. str "Thing";
  annotations-copy = λ d. refl;
}

abbrev reply : Object → Result Str (Response Object)
reply b = ok (record { reported = none; object = b })

abbrev found : Option Object → Result Str (Response Object)
found none = err (str "thing not found")
found (some b) = reply b

-- The world after a call that is not dry.
abbrev unless_dry : Bool → Objects → Objects → Objects
unless_dry dry w w' = if dry then w else w'

abbrev list_client : Client Str Object Objects
list_client = record {
  read_data_source = λ p n b w. (w, found (lookup (b.0) w));
  list_data_source = λ p n b w. (w, reply b);
  create_resource = λ p n dry b w. (unless_dry dry w (insert (b.0) b w), reply b);
  update_resource = λ p n dry b old w. (unless_dry dry w (insert (b.0) b w), reply b);
  delete_resource = λ p n dry b w. (unless_dry dry w (erase (b.0) w), reply b);
}

found-ok : (o : Option Object) (old : Object) → reply_of (found o) ≡ ok old → o ≡ some old
unfolding reply_of
found-ok none old h = cc
found-ok (some b) old h = ap some (ok-injective h)

found-err : (o : Option Object) (m : Str) → reply_of (found o) ≡ err m → o ≡ none
unfolding reply_of
found-err none m h = refl
found-err (some b) m h = cc

reply-ok : (b b' : Object) → reply_of (reply b) ≡ ok b' → b ≡ b'
unfolding reply_of
reply-ok b b' h = ok-injective h

reply-err : (b : Object) (m : Str) → reply_of (reply b) ≢ err m
unfolding reply_of
reply-err b m h = cc

inserted_here :
    (b b' : Object) (w : Objects)
    → reply_of (reply b) ≡ ok b'
    → lookup (b.0) (insert (b.0) b w) ≡ some b'
inserted_here b b' w h =
    ground (arith, lookup-insert (b.0) (b.0) b w, reply-ok b b' h, eq_iff (b.0) (b.0))

inserted_elsewhere :
    (b : Object) (w : Objects) (k : Str)
    → (b.0 == k) ≡ false
    → lookup k (insert (b.0) b w) ≡ lookup k w
inserted_elsewhere b w k h = rw (lookup-insert (b.0) k b w, h) refl

abbrev list_cluster : Cluster list_client Str
list_cluster = record {
  keys_compared = str_eq;
  key_of = λ p n b. b.0;
  object_at = λ w k. lookup k w;
  read-world = λ p n b w k. refl;
  list-world = λ p n b w k. refl;
  read-found = λ p n b old w h. found-ok (lookup (b.0) w) old h;
  create-dry = λ p n b w k. refl;
  create-made = λ p n b b' w f. inserted_here b b' w f;
  create-elsewhere = λ p n b w k f. inserted_elsewhere b w k f;
  update-dry = λ p n b old w k. refl;
  update-made = λ p n b old b' w h f. inserted_here b b' w f;
  update-elsewhere = λ p n b old w k f. inserted_elsewhere b w k f;
  delete-dry = λ p n b w k. refl;
}

abbrev applying : FnConfig
applying = record {
  run_kind = regular_run;
  root_package = str "root";
  dry_run = false;
  destroy = false;
}

abbrev pod : Object
pod = (str "pod", str "new")

abbrev old_world : Objects
old_world = (str "pod", (str "pod", str "old")) ∷ (str "job", (str "job", str "kept")) ∷ []

-- The object is updated, not created: its old value is gone.
pod_updated :
    put_object ⦃cl = list_client⦄ applying (str "k8s") (str "k8s_pod") pod old_world
    ≡ ((str "pod", pod) ∷ (str "job", (str "job", str "kept")) ∷ [], ok pod)
unfolding put_object get_object put_after_get update_object reply_of lookup insert list_beq
pod_updated = refl

abbrev Vars : Type 0
Vars = Assoc Str (VarData Str)

abbrev Docs : Type 0
Docs = Assoc Str (BlockData Doc)

abbrev list_env : Env Doc Object Str Vars Docs (Assoc Str Docs) (Assoc Str (Option Str)) Str Objects
list_env = record {
  nil = ([], []);
  nodes = doc_nodes;
  codec = record {
    render_node = λ s vars n. ok n;
    to_json = λ n. ok (n.1, str "new");
    from_json = λ b. ok (b.1);
    set_annotations = λ m n. (m, n.1);
  };
  client = list_client;
  var_store = assoc_store (VarData Str);
  block_store = assoc_store (BlockData Doc);
  package_store = assoc_store Docs;
  client_store = assoc_store (Option Str);
}

abbrev clients_of_k8s : Assoc Str (Option Str)
clients_of_k8s = (str "k8s", some (str "k8s")) ∷ []

abbrev attributes_of_pod : Attributes
attributes_of_pod =
    get_attributes ⦃y = doc_nodes⦄ resource
      ((key_resource_type, str "k8s_pod") ∷ (key_provider, str "k8s") ∷ [], str "pod")

abbrev pod_vertex : BlockType → VertexContext Doc
pod_vertex t = record {
  vertex_file = str "f";
  vertex_index = str "0";
  vertex_package = str "root";
  vertex_type = t;
  vertex_block = str "k8s_pod.pod";
  vertex_data = ([], str "pod") ∷ ([], str "job") ∷ [];
  vertex_attributes = some attributes_of_pod;
  vertex_dependencies = [];
  vertex_pkg_dependencies = [];
}

abbrev before_run : LoopState Vars (Assoc Str Docs) Objects Str
before_run = record {
  vars = [];
  resources = (str "root", []) ∷ [];
  world = old_world;
  local_vars = [];
}

dry_example : SameWorld list_cluster old_world (
    (run_resource list_env
      (record applying { dry_run = true })
      clients_of_k8s
      (pod_vertex resource)
      before_run).after.world)
dry_example =
    run_resource-SameWorld list_env list_cluster (record applying { dry_run = true })
      (pod_vertex resource) clients_of_k8s before_run refl

destroy_example :
    SameRecords list_env
      (record applying { destroy = true })
      (pod_vertex resource)
      before_run
      ((run_resource list_env
        (record applying { destroy = true })
        clients_of_k8s
        (pod_vertex resource)
        before_run).after)
destroy_example =
    run_resource-SameRecords list_env (record applying { destroy = true }) (pod_vertex resource)
      clients_of_k8s before_run refl

first_example :
    iterate_all list_env applying clients_of_k8s
      (pod_vertex resource)
      ([], str "pod")
      0
      (([], str "pod") ∷ ([], str "job") ∷ [])
      before_run
    ≡ iterate_all list_env applying clients_of_k8s
        (pod_vertex resource)
        ([], str "pod")
        0
        (([], str "pod") ∷ ([], str "set") ∷ [])
        before_run
first_example =
    iterate_all-first list_env applying clients_of_k8s (pod_vertex resource) ([], str "pod") 0
      (([], str "pod") ∷ ([], str "job") ∷ []) (([], str "pod") ∷ ([], str "set") ∷ []) before_run
      (λ e. cc) refl

abbrev reading : FnConfig
reading = record applying { run_kind = inventory_run }

abbrev list_values : Values Doc Object Str Str Str Objects
list_values = record {
  yaml_value = λ n. ok (n.1);
  node_text = λ n. n.1;
  initialize = λ t. ok t;
  configure = λ p b w. (w, ok []);
}

abbrev input_vertex : VertexContext Doc
input_vertex = record (pod_vertex input) { vertex_block = str "input.a" }

input_example :
    lookup (str "input.a") ((run_input list_env list_values input_vertex []).after)
    ≡ some ((dummy_key, some (str "pod") ∷ some (str "job") ∷ []) ∷ [])
unfolding lookup list_beq get_var_data values_of
input_example = run_input_lem list_env list_values input_vertex [] (str "input.a")

abbrev no_clients : ProviderState (Assoc Str Str) (Assoc Str (Option Str)) Objects
no_clients = record { configs = []; clients = []; provider_world = [] }

provider_example :
    Registers list_env list_values (assoc_store Str) (assoc_store Str) (str "k8s") no_clients (
      run_provider list_env list_values
        (assoc_store Str)
        (assoc_store Str)
        ((str "k8s", str "binary") ∷ [])
        (record (pod_vertex provider) { vertex_block = str "k8s" })
        []
        []
        no_clients)
provider_example =
    run_provider-Registers list_env list_values (assoc_store Str) (assoc_store Str)
      ((str "k8s", str "binary") ∷ []) (record (pod_vertex provider) { vertex_block = str "k8s" })
      [] [] no_clients

abbrev callers_state : PackageState Vars Docs (Assoc Str Docs) Objects
callers_state = record {
  pkg_vars = [];
  pkg_outputs = (str "output.a", ([], str "old") ∷ []) ∷ [];
  pkg_resources = none;
  rest = [];
}

-- A DAG that sets two outputs.
abbrev two_outputs :
    PackageState Vars Docs (Assoc Str Docs) Objects
    → Result Str (Bool × PackageState Vars Docs (Assoc Str Docs) Objects)
two_outputs s = ok (
  true,
  record s {
    pkg_outputs =
        (str "output.a", ([], str "new") ∷ []) ∷ (str "output.b", ([], str "b") ∷ []) ∷ [];
  },
)

package_example :
    lookup
      (str "output.a")
      ((run_package list_env two_outputs [] [] (str "root") [] callers_state).after.pkg_outputs)
    ≡ some (([], str "old") ∷ [])
unfolding copy_inputs lookup list_beq
package_example =
    run_package-get list_env two_outputs [] [] [] (str "root") (str "output.a") [] callers_state
      refl
