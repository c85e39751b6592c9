-- ===== src/Functions/Destroy.antt =====
-- A run that destroys resources records nothing: `Run` of run_resource.go.
use kform.Shared.{first_part, refl, true, ℕ, ◌∙◌, ◌≡◌}
use kform.Functions.Loop.{LoopState, after_act, call_provider, run_resource}
use kform.Functions.Resource.{Acted, act, give_error, go_on, skip_rest}
use kform.Functions.Rule.{run_resource_rule, state_after}
use kform.Functions.World.{Env, FnConfig}
use kform.Package.Graph.{VertexContext}

module _ {ℓ} {N B A V K R I P W : Type ℓ} (e : Env N B A V K R I P W) (cfg : FnConfig)
    (vctx : VertexContext N) where
  -- The variables, the recorded objects and the local variables.
  abbrev pub SameRecords : LoopState V R W A → LoopState V R W A → Type ℓ
  SameRecords s t = (t.vars ≡ s.vars) × (t.resources ≡ s.resources) × (t.local_vars ≡ s.local_vars)

  after_act-SameRecords :
      (idx : ℕ) (rn : N) (s : LoopState V R W A) (a : Acted B)
      → cfg.destroy ≡ true
      → SameRecords s (state_after (after_act e cfg vctx idx rn s a))
  unfolding after_act
  after_act-SameRecords idx rn s (give_error m) d = (refl, refl, refl)
  after_act-SameRecords idx rn s skip_rest d = (refl, refl, refl)
  after_act-SameRecords idx rn s (go_on b) d = rw (d, after_act) (refl, refl, refl)

  call_provider-SameRecords :
      cfg.destroy ≡ true
      → (idx : ℕ) (p : P) (rn : N) (b : B) (s : LoopState V R W A)
      → SameRecords s (state_after (call_provider e cfg vctx idx p rn b s))
  unfolding call_provider
  call_provider-SameRecords d idx p rn b s =
      let r =
        act ⦃cl = e.client⦄ cfg (vctx.vertex_type) p (first_part 46 (vctx.vertex_block)) b
          (s.world) in
      after_act-SameRecords idx rn (record s { world = r.0 }) (r.1) d

  -- A run that destroys leaves the variables, the recorded objects and the local variables as they
  -- are, whatever the block and however it ends.
  pub run_resource-SameRecords :
      (instances : I) (s : LoopState V R W A)
      → cfg.destroy ≡ true
      → SameRecords s ((run_resource e cfg instances vctx s).after)
  run_resource-SameRecords instances s d =
      run_resource_rule e cfg vctx SameRecords
        (record {
          same = λ t. (refl, refl, refl);
          joined = λ t r q h g. (g.0 ∙ h.0, g.1 ∙ h.1, g.2 ∙ h.2);
          called = call_provider-SameRecords d;
        })
        instances s
