-- ===== src/Functions/Loop.antt =====
-- pkg/exec/fn/fns/run_resource.go: `Run`, the loop over the documents of the block.
use kform.Shared.{
  Assoc, Bool, List, Result, Str, [], err, false, first_part, if◌then◌else◌, insert, length, none,
  ok, some, str_eq, true, ℕ, ◌+◌, ◌∷◌,
}
use kform.Data.BlockStore.{update_block_store_entry}
use kform.Data.VarData.{
  Any, Outcome, int, key_items_index, key_items_total, panicked, pos, returned, update_var_store,
}
use kform.Functions.Resource.{
  Acted, act, erase_all, give_error, go_on, kform_annotations, skip_rest,
}
use kform.Functions.World.{
  DagRun, Env, FnConfig, FnError, Ran, call_error, cannot_render, fn_panicked, inventory_run,
  no_package_store, provider_not_initialized, returned_error, returned_nil, store_failed,
  unknown_provider, update_vars_failed,
}
use kform.Package.BlockTypes.{BlockType, data_block, resource}
use kform.Package.Graph.{VertexContext}
use kform.Package.Nodes.{get_copies}

-- What the loop changes: the variables, the objects applied for each package, the world, and the
-- local variables of the instance.
pub record LoopState {ℓ κ μ ν} (V : Type ℓ) (R : Type κ) (W : Type μ) (A : Type ν)
    : Type (ℓ ⊔ κ ⊔ μ ⊔ ν) where
  pub vars : V
  pub resources : R
  pub world : W
  pub local_vars : Assoc Str (Any A)

-- The block is a resource, or the data of an inventory run.
unfoldable pub is_recorded : DagRun → BlockType → Bool
is_recorded kind t = elim t [
  | resource ↦ true
  | data_block ↦ elim kind [ inventory_run ↦ true | _ ↦ false ]
  | _ ↦ false
]

-- `r.kind == DagRunInventory && vctx.BlockType == BlockTYPE_DATA`
unfoldable pub fakes_count : DagRun → BlockType → Bool
fakes_count kind t = elim t [
  | data_block ↦ elim kind [ inventory_run ↦ true | _ ↦ false ]
  | _ ↦ false
]

-- An iteration goes on to the next one, or the function ends.
pub data Next {ℓ} (S : Type ℓ) : Type ℓ where
  continues : S → Next S
  ends_with : Ran S → Next S

abbrev pub and_then {ℓ} : {S : Type ℓ} → Next S → (S → Ran S) → Ran S
and_then (continues s) f = f s
and_then (ends_with r) f = r

abbrev pub fails_with {ℓ} : {S : Type ℓ} → S → FnError → Next S
fails_with s e = ends_with (record { after = s; ending = returned_error e })

-- The two local variables that an inventory run sets.
unfoldable pub with_fake_count {ℓ} : {A : Type ℓ} → ℕ → ℕ → Assoc Str (Any A) → Assoc Str (Any A)
unfolding insert
with_fake_count total idx m =
    insert key_items_index (int (pos idx)) (insert key_items_total (int (pos total)) m)

module _ {ℓ} {N B A V K R I P W : Type ℓ} (e : Env N B A V K R I P W) where
  -- Without the annotations of kform.
  unfoldable pub stripped : N → N
  unfolding erase_all
  stripped rn = e.codec.set_annotations (erase_all kform_annotations (e.nodes.annotations rn)) rn

  -- The document that this iteration sends: that of the inventory, or the first one, rendered.
  unfoldable pub to_send : FnConfig → LoopState V R W A → N → N → Result FnError N
  to_send cfg s first rn = elim (cfg.run_kind) [
    | inventory_run ↦ ok rn
    | _ ↦ elim (e.codec.render_node (s.vars) (s.local_vars) first) [
      | ok n ↦ ok n
      | err _ ↦ err cannot_render
    ]
  ]

  unfoldable pub provider_client : I → Str → Str → Result FnError P
  provider_client instances provider_key name =
      elim (e.client_store.get_entry provider_key instances) [
        | none ↦ err (unknown_provider provider_key)
        | some none ↦ err (provider_not_initialized provider_key name)
        | some (some p) ↦ ok p
      ]

  -- The object is added to those of the root package; `nil` is the zero value of a document.
  unfoldable pub record_object :
      FnConfig → VertexContext N → ℕ → N → LoopState V R W A → Next (LoopState V R W A)
  unfolding with_fake_count fakes_count update_block_store_entry
  record_object cfg vctx idx rn s =
      elim (e.package_store.get_entry (cfg.root_package) (s.resources)) [
        | none ↦ fails_with s (no_package_store (cfg.root_package))
        | some k ↦
            let locals =
              if fakes_count (cfg.run_kind) (vctx.vertex_type)
              then with_fake_count (length (vctx.vertex_data)) idx (s.local_vars)
              else s.local_vars in
            let s' = record s { local_vars = locals } in
            elim (update_block_store_entry ⦃st = e.block_store⦄ (e.nil) k (vctx.vertex_block) rn
              locals) [
                | panicked ↦ ends_with (record { after = s'; ending = fn_panicked })
                | returned k' o ↦
                    let s'' = record s' {
                      resources = e.package_store.update_entry (cfg.root_package) k' (s.resources);
                    } in
                    elim o [ none ↦ continues s'' | some d ↦ fails_with s'' (store_failed d) ]
              ]
      ]

  -- What follows `UpdateVarStore`.
  unfoldable pub record_after_vars :
      FnConfig → VertexContext N → ℕ → N → LoopState V R W A → Outcome V → Next (LoopState V R W A)
  unfolding record_object is_recorded
  record_after_vars cfg vctx idx rn s panicked =
      ends_with (record { after = s; ending = fn_panicked })
  record_after_vars cfg vctx idx rn s (returned vars' o) =
      let s' = record s { vars = vars' } in
      let recorded = record_object cfg vctx idx rn s' in
      elim o [
        | some d ↦ fails_with s' (update_vars_failed d)
        | none ↦ if is_recorded (cfg.run_kind) (vctx.vertex_type) then recorded else continues s'
      ]

  -- What follows the call of the provider when the run does not destroy.
  unfoldable pub record_result :
      FnConfig → VertexContext N → ℕ → N → B → LoopState V R W A → Next (LoopState V R W A)
  unfolding record_after_vars update_var_store
  record_result cfg vctx idx rn b s = elim (e.codec.from_json b) [
    | err m ↦ fails_with s (call_error m)
    | ok v ↦
        record_after_vars cfg vctx idx rn s
          (update_var_store ⦃st = e.var_store⦄ (s.vars) (vctx.vertex_block) v (s.local_vars))
  ]

  -- What follows the `switch` on the block type.
  unfoldable pub after_act :
      FnConfig → VertexContext N → ℕ → N → LoopState V R W A → Acted B → Next (LoopState V R W A)
  unfolding record_result
  after_act cfg vctx idx rn s (give_error m) = fails_with s m
  after_act cfg vctx idx rn s skip_rest = ends_with (record { after = s; ending = returned_nil })
  after_act cfg vctx idx rn s (go_on b) =
      let recorded = record_result cfg vctx idx rn b s in
      if cfg.destroy then continues s else recorded

  -- The call of a provider, with the name of the resource type, and what follows it.
  unfoldable pub call_provider :
      FnConfig → VertexContext N → ℕ → P → N → B → LoopState V R W A → Next (LoopState V R W A)
  unfolding act after_act first_part
  call_provider cfg vctx idx p rn b s =
      let r =
        act ⦃cl = e.client⦄ cfg (vctx.vertex_type) p (first_part 46 (vctx.vertex_block)) b
          (s.world) in
      after_act cfg vctx idx rn (record s { world = r.0 }) (r.1)

  -- One iteration, from the document to send on; a vertex without attributes is a nil pointer.
  unfoldable pub send :
      FnConfig → I → VertexContext N → ℕ → N → LoopState V R W A → Next (LoopState V R W A)
  unfolding stripped provider_client call_provider
  send cfg instances vctx idx rn s = elim (e.codec.to_json (stripped rn)) [
    | err m ↦ fails_with s (call_error m)
    | ok b ↦ elim (vctx.vertex_attributes) [
      | none ↦ ends_with (record { after = s; ending = fn_panicked })
      | some attrs ↦ elim (provider_client instances (attrs.provider_name) (vctx.vertex_block)) [
        | err m ↦ fails_with s m
        | ok p ↦ call_provider cfg vctx idx p (stripped rn) b s
      ]
    ]
  ]

  -- One iteration of the loop.
  unfoldable pub iterate :
      FnConfig → I → VertexContext N → ℕ → N → N → LoopState V R W A → Next (LoopState V R W A)
  unfolding to_send send
  iterate cfg instances vctx idx first rn s = elim (to_send cfg s first rn) [
    | err m ↦ fails_with s m
    | ok rn' ↦ send cfg instances vctx idx rn' s
  ]

  -- The loop over the documents from position `idx` on, with the first document of the block.
  unfoldable pub iterate_all :
      FnConfig → I → VertexContext N → N → ℕ → List N → LoopState V R W A → Ran (LoopState V R W A)
  unfolding iterate
  iterate_all cfg instances vctx first idx [] s = record { after = s; ending = returned_nil }
  iterate_all cfg instances vctx first idx (rn ∷ rns) s =
      and_then (iterate cfg instances vctx idx first rn s)
        (λ s'. iterate_all cfg instances vctx first (idx + 1) rns s')

  -- `Run` of a resource
  unfoldable pub run_resource :
      FnConfig → I → VertexContext N → LoopState V R W A → Ran (LoopState V R W A)
  unfolding iterate_all
  run_resource cfg instances vctx s = elim (get_copies ⦃y = e.nodes⦄ (vctx.vertex_data)) [
    | [] ↦ record { after = s; ending = returned_nil }
    | first ∷ rest ↦ iterate_all cfg instances vctx first 0 (first ∷ rest) s
  ]
