-- ===== src/Functions/Packages.antt =====
-- pkg/exec/fn/fns: run_package.go, and the choice of a function in init_fns_map.go.
use kform.Shared.{
  Assoc, Bool, Option, Option-cases, Result, Result-cases, Str, [], ap, arith, eq_iff, err, false,
  if◌then◌else◌, inl, inr, lookup, none, ok, some, str_eq, true, ◌==◌, ◌∙◌, ◌∷◌, ◌≡◌,
}
use kform.Data.VarData.{VarData}
use kform.Functions.World.{
  Env, FnError, Ran, call_error, returned_error, returned_nil, unexpected_block_type,
  unexpected_local_var,
}
use kform.Package.BlockTypes.{
  BlockType, data_block, input, list_block, local, output, package_block, provider, resource,
  root_block,
}
use kform.Package.Nodes.{BlockData}

-- `NewMap`: the function of each kind of block.
pub data FnKind : Type 0 where
  package_fn : FnKind
  input_fn : FnKind
  local_or_output_fn : FnKind
  resource_fn : FnKind
  root_fn : FnKind
  provider_fn : FnKind

unfoldable pub initializer_of : BlockType → Option FnKind
initializer_of package_block = some package_fn
initializer_of input = some input_fn
initializer_of output = some local_or_output_fn
initializer_of local = some local_or_output_fn
initializer_of resource = some resource_fn
initializer_of data_block = some resource_fn
initializer_of list_block = some resource_fn
initializer_of root_block = some root_fn
initializer_of provider = some provider_fn
initializer_of _ = none

-- `Run` of the map: the function of the kind, or an error.
unfoldable pub run_block {ℓ} : {S : Type ℓ} → (FnKind → S → Ran S) → BlockType → S → Ran S
unfolding initializer_of
run_block fns t s = elim (initializer_of t) [
  | none ↦ record { after = s; ending = returned_error (unexpected_block_type t) }
  | some f ↦ fns f s
]

-- `Run` of the root
abbrev pub run_root {ℓ} : {S : Type ℓ} → S → Ran S
run_root s = record { after = s; ending = returned_nil }

-- The stores that the DAG of a package is run on; `rest` is all else that it changes.
pub record PackageState {ℓ} (V K R G : Type ℓ) : Type ℓ where
  pub pkg_vars : V
  pub pkg_outputs : K
  pub pkg_resources : Option R
  pub rest : G

module _ {ℓ} {N B A V K R I P W : Type ℓ} (e : Env N B A V K R I P W) where
  -- The loop over the inputs of the package: a value of another type is an error.
  unfoldable pub copy_inputs : Assoc Str (Option (VarData A)) → V → Result FnError V
  copy_inputs [] s = ok s
  copy_inputs ((name, none) ∷ vars) s = err (unexpected_local_var name)
  copy_inputs ((name, some d) ∷ vars) s = copy_inputs vars (e.var_store.update_entry name d s)

  -- `Create` whose error is dropped.
  unfoldable pub create_output : Str → BlockData N → K → K
  create_output name d s = elim (e.block_store.create_entry name d s) [ none ↦ s | some s' ↦ s' ]

  -- The outputs of the package are copied to those of its caller.
  unfoldable pub copy_outputs : Assoc Str (BlockData N) → K → K
  unfolding create_output
  copy_outputs [] s = s
  copy_outputs ((name, d) ∷ ds) s = copy_outputs ds (create_output name d s)

  unfoldable pub new_package_store : Str → K → Option R → Option R
  new_package_store name empty none = none
  new_package_store name empty (some r) = elim (e.package_store.create_entry name empty r) [
    | none ↦ some r
    | some r' ↦ some r'
  ]

  abbrev get : Str → K → Option (BlockData N)
  get = e.block_store.get_entry

  -- The value that is there, or the other one.
  abbrev pub or_else : Option (BlockData N) → Option (BlockData N) → Option (BlockData N)
  or_else (some d) o = some d
  or_else none o = o

  create_output-get :
      (name j : Str) (d : BlockData N) (s : K)
      → get j (create_output name d s) ≡ or_else (get j s) (if name == j then some d else none)
  unfolding create_output
  create_output-get name j d s = elim (Option-cases (get name s)) [
    | inl f ↦
        let (s', g, h) = e.block_store.create-free name d s f in
        rw (g, create_output, h j) (ground (arith, eq_iff name j))
    | inr (v, f) ↦
        rw (e.block_store.create-taken name d v s f, create_output) (ground (arith, eq_iff name j))
  ]

  copy_outputs-get :
      (ds : Assoc Str (BlockData N)) (j : Str) (s : K)
      → get j (copy_outputs ds s) ≡ or_else (get j s) (lookup j ds)
  unfolding copy_outputs lookup
  copy_outputs-get [] j s = ground arith
  copy_outputs-get ((name, d) ∷ ds) j s =
      rw (copy_outputs-get ds j (create_output name d s), create_output-get name j d s)
        (ground (arith, eq_iff name j))

module _ {ℓ} {N B A V K R I P W G : Type ℓ} (e : Env N B A V K R I P W) where
  -- What follows the run of the DAG: the outputs are copied if it succeeded.
  unfoldable pub finish_package :
      PackageState V K R G → Bool × PackageState V K R G → PackageState V K R G
  unfolding copy_outputs
  finish_package s (true, t) = record t {
    pkg_vars = s.pkg_vars;
    pkg_outputs = copy_outputs e (e.block_store.list_entries (t.pkg_outputs)) (s.pkg_outputs);
  }
  finish_package s (false, t) = record t { pkg_vars = s.pkg_vars; pkg_outputs = s.pkg_outputs }

  -- `Run` of a package. `run_dag` is `NewDAGExecutor`, whose error is returned, and then `Run` of the
  -- executor with the handler of blocks; the inputs are the local variables. The two stores of `memory.NewStore` are empty.
  unfoldable pub run_package :
      (PackageState V K R G → Result Str (Bool × PackageState V K R G))
      → V
      → K
      → Str
      → Assoc Str (Option (VarData A))
      → PackageState V K R G
      → Ran (PackageState V K R G)
  unfolding copy_inputs new_package_store finish_package
  run_package run_dag no_vars no_blocks root_name inputs s =
      let s' = record s {
        pkg_resources = new_package_store e root_name no_blocks (s.pkg_resources);
      } in
      elim (copy_inputs e inputs no_vars) [
        | err m ↦ record { after = s'; ending = returned_error m }
        | ok vars ↦ elim (run_dag (record s' { pkg_vars = vars; pkg_outputs = no_blocks })) [
          | err m ↦ record { after = s'; ending = returned_error (call_error m) }
          | ok r ↦ record { after = finish_package s' r; ending = returned_nil }
        ]
      ]

  finish_package-get :
      (s : PackageState V K R G) (r : Bool × PackageState V K R G) (j : Str)
      → get e j ((finish_package s r).pkg_outputs)
        ≡ or_else e (get e j (s.pkg_outputs)) (if r.0 then get e j (r.1.pkg_outputs) else none)
  unfolding finish_package
  finish_package-get s (true, t) j =
      copy_outputs-get e (e.block_store.list_entries (t.pkg_outputs)) j (s.pkg_outputs)
      ∙ ap (or_else e (get e j (s.pkg_outputs))) (e.block_store.lookup-list j (t.pkg_outputs))
  finish_package-get s (false, t) j = ground arith

  -- The output that a package gives: none without an executor, or if its DAG failed.
  abbrev pub output_of : Str → Result Str (Bool × PackageState V K R G) → Option (BlockData N)
  output_of j (err m) = none
  output_of j (ok r) = if r.0 then get e j (r.1.pkg_outputs) else none

  -- After a package whose inputs are all variables, an output that its caller had is as it was; any
  -- other one is that of the package if its DAG succeeded, and none if it failed or there was no
  -- executor for it.
  pub run_package-get :
      (run_dag : PackageState V K R G → Result Str (Bool × PackageState V K R G)) (no_vars vars : V)
      (no_blocks : K) (root_name j : Str) (inputs : Assoc Str (Option (VarData A)))
      (s : PackageState V K R G)
      → copy_inputs e inputs no_vars ≡ ok vars
      → let started = record s {
        pkg_vars = vars;
        pkg_outputs = no_blocks;
        pkg_resources = new_package_store e root_name no_blocks (s.pkg_resources);
      } in
        get e j ((run_package run_dag no_vars no_blocks root_name inputs s).after.pkg_outputs)
        ≡ or_else e (get e j (s.pkg_outputs)) (output_of j (run_dag started))
  unfolding run_package
  run_package-get run_dag no_vars vars no_blocks root_name j inputs s h =
      let s' = record s {
        pkg_resources = new_package_store e root_name no_blocks (s.pkg_resources);
      } in
      let t = record s' { pkg_vars = vars; pkg_outputs = no_blocks } in
      elim (Result-cases (run_dag t)) [
        | inl (r, f) ↦ rw (h, run_package, f) (finish_package-get s' r j)
        | inr (m, f) ↦ rw (h, run_package, f) (ground arith)
      ]
