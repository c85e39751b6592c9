-- ===== src/Functions/World.antt =====
-- What the functions of pkg/exec/fn/fns share: their configuration (`Config` and `DagRun` of
-- init_fns_map.go), the state that they change, and how they end. The renderer of expressions, the
-- encodings of a document and the clients of the providers are parameters.
use kform.Shared.{Assoc, Bool, Option, Result, Storer, Str}
use kform.Data.VarData.{Any, DataError, VarData}
use kform.Package.BlockTypes.{BlockType}
use kform.Package.Nodes.{BlockData, Nodes}

pub data DagRun : Type 0 where
  regular_run : DagRun
  provider_run : DagRun
  inventory_run : DagRun

pub record FnConfig : Type 0 where
  pub run_kind : DagRun
  pub root_package : Str
  pub dry_run : Bool
  pub destroy : Bool

pub data FnError : Type 0 where
  -- an error of a call, passed on
  call_error : Str → FnError
  cannot_render : FnError
  unknown_provider : Str → FnError
  provider_not_initialized : Str → Str → FnError
  unexpected_block_type : BlockType → FnError
  update_vars_failed : DataError → FnError
  store_failed : DataError → FnError
  no_package_store : Str → FnError
  taken_config : Str → FnError
  configure_failed : Str → FnError
  unexpected_local_var : Str → FnError

-- A function returns nil or an error, or it panics; the state is changed in each case.
pub data Ending : Type 0 where
  returned_nil : Ending
  returned_error : FnError → Ending
  fn_panicked : Ending

pub record Ran {ℓ} (S : Type ℓ) : Type ℓ where
  pub after : S
  pub ending : Ending

-- A response of a provider: `Error()` of its diagnostics if one of them is an error.
pub record Response {ℓ} (B : Type ℓ) : Type ℓ where
  pub reported : Option Str
  pub object : B

-- `plugin.Provider` with clients `P`, objects `B` in JSON and the world `W` that they change.
pub record Client {ℓ κ μ} (P : Type ℓ) (B : Type κ) (W : Type μ) : Type (ℓ ⊔ κ ⊔ μ) where
  -- `ReadDataSource`
  pub read_data_source : P → Str → B → W → W × Result Str (Response B)
  -- `ListDataSource`
  pub list_data_source : P → Str → B → W → W × Result Str (Response B)
  -- `CreateResource`, `UpdateResource`, `DeleteResource` with `DryRun`
  pub create_resource : P → Str → Bool → B → W → W × Result Str (Response B)
  pub update_resource : P → Str → Bool → B → B → W → W × Result Str (Response B)
  pub delete_resource : P → Str → Bool → B → W → W × Result Str (Response B)

-- The renderer of expressions over the variables `V` and local variables `L`, the encoding of a
-- document as JSON, and `json.Unmarshal` to a `map[string]any`.
pub record Codec {ℓ κ μ ν} (N : Type ℓ) (B : Type κ) (A : Type μ) (V : Type ν)
    : Type (ℓ ⊔ κ ⊔ μ ⊔ ν) where
  pub render_node : V → Assoc Str (Any A) → N → Result Str N
  pub to_json : N → Result Str B
  pub from_json : B → Result Str A
  pub set_annotations : Assoc Str Str → N → N

-- What a function gets: documents with their `nil`, the parameters above, and the stores of the
-- variables, of the objects of each package, and of the clients of the providers.
pub record Env {ℓ} (N B A V K R I P W : Type ℓ) : Type ℓ where
  pub nil : N
  pub nodes : Nodes N
  pub codec : Codec N B A V
  pub client : Client P B W
  pub var_store : Storer (VarData A) V
  pub block_store : Storer (BlockData N) K
  pub package_store : Storer K R
  pub client_store : Storer (Option P) I
