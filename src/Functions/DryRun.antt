-- ===== src/Functions/DryRun.antt =====
-- A dry run of a resource block leaves the cluster as it is: `Run` of run_resource.go.
use kform.Shared.{Result-cases, ap, arith, first_part, inl, inr, refl, true, ℕ, ◌∙◌, ◌≡◌}
use kform.Data.VarData.{Outcome, panicked, returned, update_var_store}
use kform.Functions.Cluster.{Cluster, SameWorld, act-SameWorld}
use kform.Functions.Loop.{
  LoopState, after_act, call_provider, record_after_vars, record_object, record_result,
  run_resource,
}
use kform.Functions.Resource.{Acted, act, give_error, go_on, skip_rest}
use kform.Functions.Rule.{run_resource_rule, state_after}
use kform.Functions.World.{Env, FnConfig}
use kform.Package.Graph.{VertexContext}

module _ {ℓ} {N B A V K R I P W : Type ℓ} (e : Env N B A V K R I P W) (cfg : FnConfig)
    (vctx : VertexContext N) (idx : ℕ) (rn : N) where
  record_object-world :
      (s : LoopState V R W A) → (state_after (record_object e cfg vctx idx rn s)).world ≡ s.world
  unfolding record_object
  record_object-world s = ground arith

  record_after_vars-world :
      (s : LoopState V R W A) (o : Outcome V)
      → (state_after (record_after_vars e cfg vctx idx rn s o)).world ≡ s.world
  unfolding record_after_vars
  record_after_vars-world s panicked = refl
  record_after_vars-world s (returned vars' o) =
      ground (arith, record_object-world (record s { vars = vars' }))

  record_result-world :
      (b : B) (s : LoopState V R W A)
      → (state_after (record_result e cfg vctx idx rn b s)).world ≡ s.world
  unfolding record_result
  record_result-world b s = elim (Result-cases (e.codec.from_json b)) [
    | inl (v, f) ↦
        rw (f, record_result)
          (record_after_vars-world s
            (update_var_store ⦃st = e.var_store⦄ (s.vars) (vctx.vertex_block) v (s.local_vars)))
    | inr (m, f) ↦ rw (f, record_result) refl
  ]

  after_act-world :
      (s : LoopState V R W A) (a : Acted B)
      → (state_after (after_act e cfg vctx idx rn s a)).world ≡ s.world
  unfolding after_act
  after_act-world s (give_error m) = refl
  after_act-world s skip_rest = refl
  after_act-world s (go_on b) = ground (arith, record_result-world b s)

module _ {ℓ ν} {N B A V K R I P W : Type ℓ} {O : Type ν} (e : Env N B A V K R I P W)
    (u : Cluster (e.client) O) (cfg : FnConfig) (vctx : VertexContext N) where
  call_provider-SameWorld :
      cfg.dry_run ≡ true
      → (idx : ℕ) (p : P) (rn : N) (b : B) (s : LoopState V R W A)
      → SameWorld u (s.world) ((state_after (call_provider e cfg vctx idx p rn b s)).world)
  unfolding call_provider
  call_provider-SameWorld dry idx p rn b s =
      let name = first_part 46 (vctx.vertex_block) in
      let r = act ⦃cl = e.client⦄ cfg (vctx.vertex_type) p name b (s.world) in
      λ k.
        ap (λ w. u.object_at w k)
          (after_act-world e cfg vctx idx rn (record s { world = r.0 }) (r.1))
        ∙ act-SameWorld u cfg p name b (s.world) (vctx.vertex_type) dry k

  -- A dry run of a resource, data or list block leaves every object of the cluster as it is,
  -- whatever the kind of run and however the block ends.
  pub run_resource-SameWorld :
      (instances : I) (s : LoopState V R W A)
      → cfg.dry_run ≡ true
      → SameWorld u (s.world) ((run_resource e cfg instances vctx s).after.world)
  run_resource-SameWorld instances s dry =
      run_resource_rule e cfg vctx (λ t r. SameWorld u (t.world) (r.world))
        (record {
          same = λ t k. refl;
          joined = λ t r q h g k. g k ∙ h k;
          called = call_provider-SameWorld dry;
        })
        instances s
