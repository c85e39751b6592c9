-- ===== src/Functions/Defaults.antt =====
-- The defaults of inputs (run_input.go) and the clients of providers (run_provider.go).
use kform.Shared.{
  Assoc, List, Option, Option-cases, Result, Result-cases, Storer, Str, [], arith, eq_iff, err,
  if◌then◌else◌, inl, inr, none, ok, refl, some, str_eq, ◌==◌, ◌∷◌, ◌≡◌,
}
use kform.Data.VarData.{Any, VarData}
use kform.Executor.Channels.{init}
use kform.Functions.Values.{
  ProviderState, Values, configure_provider, create_vars, first_document, get_var_data, run_input,
  run_provider, store_config, take_client,
}
use kform.Functions.World.{Env, Ran, returned_nil}
use kform.Package.Graph.{VertexContext}

module _ {ℓ} {N B A V K R I P T W : Type ℓ} (e : Env N B A V K R I P W) (x : Values N B A P T W)
    (vctx : VertexContext N) where
  abbrev get : Str → V → Option (VarData A)
  get = e.var_store.get_entry

  create_vars-get :
      (name j : Str) (d : VarData A) (s : V)
      → get name s ≡ none
      → get j (create_vars e x name d s) ≡ (if name == j then some d else get j s)
  unfolding create_vars
  create_vars-get name j d s h =
      let (s', f, g) = e.var_store.create-free name d s h in rw (f, create_vars) (g j)

  -- After an input each block has the value that it had; the input itself, if it had none, has the
  -- default if the function returns nil, and none if it returns an error.
  pub run_input_lem :
      (s : V) (j : Str)
      → get j ((run_input e x vctx s).after) ≡ elim (get j s) as (λ _. Option (VarData A)) [
        | some v ↦ some v
        | none ↦
            if vctx.vertex_block == j
            then elim (get_var_data x (vctx.vertex_data)) as (λ _. Option (VarData A)) [
              | ok d ↦ some d
              | err _ ↦ none
            ]
            else none
      ]
  unfolding run_input
  run_input_lem s j = elim (Option-cases (get (vctx.vertex_block) s)) [
    | inr (v, f) ↦ rw (f, run_input) (ground (arith, eq_iff (vctx.vertex_block) j))
    | inl f ↦ elim (Result-cases (get_var_data x (vctx.vertex_data))) [
      | inl (d, g) ↦
          rw (f, run_input, g)
            (ground
              (arith, eq_iff (vctx.vertex_block) j, create_vars-get (vctx.vertex_block) j d s f))
      | inr (m, g) ↦ rw (f, run_input, g) (ground (arith, eq_iff (vctx.vertex_block) j))
    ]
  ]

module _ {ℓ} {N B A V K R I P T W C Q : Type ℓ} (e : Env N B A V K R I P W) (x : Values N B A P T W)
    (cs : Storer Str C) (ps : Storer T Q) where
  -- A client under the name, and nothing else changed; or, after an error, no client changed.
  abbrev pub Registers : Str → ProviderState C I W → Ran (ProviderState C I W) → Type ℓ
  Registers name t r = elim (r.ending) [
    | returned_nil ↦
        (p : P) × ((j : Str)
          → e.client_store.get_entry j (r.after.clients)
            ≡ (if name == j then some (some p) else e.client_store.get_entry j (t.clients)))
    | _ ↦ r.after.clients ≡ t.clients
  ]

  take_client-Registers :
      (name : Str) (p : P) (r : Result Str (List Str)) (t : ProviderState C I W)
      → Registers name t (take_client e x cs ps name p r t)
  unfolding take_client
  take_client-Registers name p (err m) t = refl
  take_client-Registers name p (ok (d ∷ ds)) t = refl
  take_client-Registers name p (ok []) t =
      (p, λ j. e.client_store.get-update name j (some p) (t.clients))

  configure_provider-Registers :
      (providers : Q) (name : Str) (b : B) (t : ProviderState C I W)
      → Registers name t (configure_provider e x cs ps providers name b t)
  unfolding configure_provider
  configure_provider-Registers providers name b t =
      elim (Option-cases (ps.get_entry name providers)) [
        | inl f ↦ rw (f, configure_provider) refl
        | inr (init, f) ↦ elim (Result-cases (x.initialize init)) [
          | inr (m, g) ↦ rw (f, configure_provider, g) refl
          | inl (p, g) ↦
              rw (f, configure_provider, g)
                (take_client-Registers name p ((x.configure p b (t.provider_world)).1)
                  (record t { provider_world = (x.configure p b (t.provider_world)).0 }))
        ]
      ]

  store_config-Registers :
      (providers : Q) (name : Str) (rn : N) (b : B) (t : ProviderState C I W)
      → Registers name t (store_config e x cs ps providers name rn b t)
  unfolding store_config
  store_config-Registers providers name rn b t =
      elim (Option-cases (cs.create_entry name (x.node_text rn) (t.configs))) [
        | inl f ↦ rw (f, store_config) refl
        | inr (configs', f) ↦
            rw (f, store_config)
              (configure_provider-Registers providers name b (record t { configs = configs' }))
      ]

  -- A provider function that returns nil has registered one client under the name of its block and
  -- changed no other; if it returns an error or panics, no client has changed.
  pub run_provider-Registers :
      (providers : Q) (vctx : VertexContext N) (s : V) (vars : Assoc Str (Any A))
      (t : ProviderState C I W)
      → Registers (vctx.vertex_block) t (run_provider e x cs ps providers vctx s vars t)
  unfolding run_provider
  run_provider-Registers providers vctx s vars t = elim (Option-cases (first_document e x vctx)) [
    | inl f ↦ rw (f, run_provider) refl
    | inr (first, f) ↦ elim (Result-cases (e.codec.render_node s vars first)) [
      | inr (m, g) ↦ rw (f, run_provider, g) refl
      | inl (rn, g) ↦ elim (Result-cases (e.codec.to_json rn)) [
        | inr (m, h) ↦ rw (f, run_provider, g, h) refl
        | inl (b, h) ↦
            rw (f, run_provider, g, h) (store_config-Registers providers (vctx.vertex_block) rn b t)
      ]
    ]
  ]
