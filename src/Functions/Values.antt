-- ===== src/Functions/Values.antt =====
-- pkg/exec/fn/fns: run_input.go, run_local_output.go and run_provider.go, and `GetVarData` of
-- pkg/data/blockdata.go.
use kform.Shared.{
  Assoc, List, Option, Result, Storer, Str, [], err, insert, none, ok, some, str_eq, ◌∷◌,
}
use kform.Data.BlockStore.{update_block_store_entry}
use kform.Data.VarData.{Any, VarData, dummy_key, panicked, returned, update_var_store}
use kform.Functions.World.{
  Ending, Env, FnError, Ran, call_error, cannot_render, configure_failed, fn_panicked,
  returned_error, returned_nil, store_failed, taken_config, unknown_provider, update_vars_failed,
}
use kform.Package.BlockTypes.{output}
use kform.Package.Graph.{VertexContext}
use kform.Package.Nodes.{BlockData, get_copies, key_index, key_path}

-- What these functions use beside an `Env`: `yaml.Unmarshal` of the text of a document, and that
-- text; the initializers `T` and the configuration of a provider, with the diagnostics it returns.
pub record Values {ℓ} (N B A P T W : Type ℓ) : Type ℓ where
  pub yaml_value : N → Result Str A
  pub node_text : N → Str
  pub initialize : T → Result Str P
  pub configure : P → B → W → W × Result Str (List Str)

module _ {ℓ} {N B A P T W : Type ℓ} (x : Values N B A P T W) where
  -- The loop of `GetVarData`.
  unfoldable pub values_of : BlockData N → Result FnError (List (Option A))
  values_of [] = ok []
  values_of (rn ∷ r) =
      let rest = values_of r in
      elim (x.yaml_value rn) [
        | err m ↦ err (call_error m)
        | ok v ↦ elim rest [ err m ↦ err m | ok vs ↦ ok (some v ∷ vs) ]
      ]

  -- `GetVarData`
  unfoldable pub get_var_data : BlockData N → Result FnError (VarData A)
  unfolding values_of
  get_var_data r = elim (values_of r) [ err m ↦ err m | ok vs ↦ ok ((dummy_key, vs) ∷ []) ]

module _ {ℓ} {N B A V K R I P T W : Type ℓ} (e : Env N B A V K R I P W)
    (x : Values N B A P T W) where
  -- `Create` whose error is dropped.
  unfoldable pub create_vars : Str → VarData A → V → V
  create_vars name d s = elim (e.var_store.create_entry name d s) [ none ↦ s | some s' ↦ s' ]

  -- `Run` of an input: the default, unless there is a value.
  unfoldable pub run_input : VertexContext N → V → Ran V
  unfolding get_var_data create_vars
  run_input vctx s = elim (e.var_store.get_entry (vctx.vertex_block) s) [
    | some _ ↦ record { after = s; ending = returned_nil }
    | none ↦ elim (get_var_data x (vctx.vertex_data)) [
      | err m ↦ record { after = s; ending = returned_error m }
      | ok d ↦ record { after = create_vars (vctx.vertex_block) d s; ending = returned_nil }
    ]
  ]

  -- `Get()[0]`, a panic if there is no document.
  unfoldable pub first_document : VertexContext N → Option N
  first_document vctx = elim (get_copies ⦃y = e.nodes⦄ (vctx.vertex_data)) [
    | [] ↦ none
    | first ∷ _ ↦ some first
  ]

  -- An output is stored as a document, with the file and the index of the block.
  unfoldable pub located : VertexContext N → N → N
  unfolding insert
  located vctx rn =
      e.codec.set_annotations
        (insert key_index (vctx.vertex_index)
          (insert key_path (vctx.vertex_file) (e.nodes.annotations rn)))
        rn

  unfoldable pub store_output : VertexContext N → Assoc Str (Any A) → N → V → K → Ran (V × K)
  unfolding located update_block_store_entry
  store_output vctx vars rn s outputs =
      elim (update_block_store_entry ⦃st = e.block_store⦄ (e.nil) outputs (vctx.vertex_block)
        (located vctx rn) vars) [
          | panicked ↦ record { after = (s, outputs); ending = fn_panicked }
          | returned outputs' o ↦ record {
            after = (s, outputs');
            ending = elim o [ none ↦ returned_nil | some d ↦ returned_error (store_failed d) ];
          }
        ]

  unfoldable pub store_value : VertexContext N → Assoc Str (Any A) → N → A → V → K → Ran (V × K)
  unfolding store_output update_var_store
  store_value vctx vars rn v s outputs =
      elim (update_var_store ⦃st = e.var_store⦄ s (vctx.vertex_block) v vars) [
        | panicked ↦ record { after = (s, outputs); ending = fn_panicked }
        | returned s' o ↦
            let stored = store_output vctx vars rn s' outputs in
            elim o [
              | some d ↦ record {
                after = (s', outputs);
                ending = returned_error (update_vars_failed d);
              }
              | none ↦ elim (vctx.vertex_type) [
                | output ↦ stored
                | _ ↦ record { after = (s', outputs); ending = returned_nil }
              ]
            ]
      ]

  -- `Run` of a local or an output.
  unfoldable pub run_local_or_output : VertexContext N → Assoc Str (Any A) → V → K → Ran (V × K)
  unfolding first_document store_value
  run_local_or_output vctx vars s outputs = elim (first_document vctx) [
    | none ↦ record { after = (s, outputs); ending = fn_panicked }
    | some first ↦ elim (e.codec.render_node s vars first) [
      | err m ↦ record { after = (s, outputs); ending = returned_error (call_error m) }
      | ok rn ↦ elim (x.yaml_value rn) [
        | err m ↦ record { after = (s, outputs); ending = returned_error (call_error m) }
        | ok v ↦ store_value vctx vars rn v s outputs
      ]
    ]
  ]

-- The state that the function of a provider changes: the configurations, the clients, the world.
pub record ProviderState {ℓ} (C I W : Type ℓ) : Type ℓ where
  pub configs : C
  pub clients : I
  pub provider_world : W

module _ {ℓ} {N B A V K R I P T W C Q : Type ℓ} (e : Env N B A V K R I P W) (x : Values N B A P T W)
    (cs : Storer Str C) (ps : Storer T Q) where
  abbrev pub ends_in : ProviderState C I W → Ending → Ran (ProviderState C I W)
  ends_in s o = record { after = s; ending = o }

  -- The response of `Configure`: any diagnostic is an error.
  unfoldable pub take_client :
      Str → P → Result Str (List Str) → ProviderState C I W → Ran (ProviderState C I W)
  take_client name p (err m) s = ends_in s (returned_error (unknown_provider name))
  take_client name p (ok (d ∷ ds)) s = ends_in s (returned_error (configure_failed name))
  take_client name p (ok []) s =
      ends_in (record s { clients = e.client_store.update_entry name (some p) (s.clients) })
        returned_nil

  -- From the lookup of the provider on.
  unfoldable pub configure_provider : Q → Str → B → ProviderState C I W → Ran (ProviderState C I W)
  unfolding take_client
  configure_provider providers name b s = elim (ps.get_entry name providers) [
    | none ↦ ends_in s (returned_error (unknown_provider name))
    | some t ↦ elim (x.initialize t) [
      | err m ↦ ends_in s (returned_error (call_error m))
      | ok p ↦
          let r = x.configure p b (s.provider_world) in
          take_client name p (r.1) (record s { provider_world = r.0 })
    ]
  ]

  unfoldable pub store_config : Q → Str → N → B → ProviderState C I W → Ran (ProviderState C I W)
  unfolding configure_provider
  store_config providers name rn b s = elim (cs.create_entry name (x.node_text rn) (s.configs)) [
    | none ↦ ends_in s (returned_error (taken_config name))
    | some configs' ↦ configure_provider providers name b (record s { configs = configs' })
  ]

  -- `Run` of a provider.
  unfoldable pub run_provider :
      Q → VertexContext N → V → Assoc Str (Any A) → ProviderState C I W → Ran (ProviderState C I W)
  unfolding first_document store_config
  run_provider providers vctx s vars t = elim (first_document e x vctx) [
    | none ↦ ends_in t fn_panicked
    | some first ↦ elim (e.codec.render_node s vars first) [
      | err _ ↦ ends_in t (returned_error cannot_render)
      | ok rn ↦ elim (e.codec.to_json rn) [
        | err m ↦ ends_in t (returned_error (call_error m))
        | ok b ↦ store_config providers (vctx.vertex_block) rn b t
      ]
    ]
  ]
