-- ===== src/Runner/Plan.antt =====
-- The calls of a run as a list, and what a run of such a list does.
use kform.Shared.{
  All, Bool, List, Option, Str, [], arith, false, if◌then◌else◌, none, not, refl, str_eq, subst,
  sym, true, ◌++◌, ◌==◌, ◌∷◌, ◌≡◌,
}
use kform.Functions.World.{inventory_run, regular_run}
use kform.Runner.Run.{
  Call, RunConfig, apply_inventory, apply_package, compare_and_prune, delete_inventory, diff_exec,
  get_fake_inventory_info, get_input_vars, get_inventory, get_inventory_info, get_output_sink,
  new_differ, new_manager, parse_and_run, prune, read_inventory, resources_to_delete, run_differ,
  run_kform, write_output,
}
use kform.Runner.Stages.{All-perform_all, Trace, perform_all}

-- The end of a run.
unfoldable pub prune_plan : RunConfig → List Call
prune_plan cfg =
    resources_to_delete
    ∷ parse_and_run (record {
      kform_kind = inventory_run;
      kform_dry_run = cfg.run_dry_run;
      kform_destroy = true;
    })
    ∷ (if cfg.run_destroy then delete_inventory ∷ [] else apply_inventory ∷ write_output ∷ [])

unfoldable pub compare_plan : RunConfig → List Call
unfolding prune_plan
compare_plan cfg =
    new_differ
    ∷ run_differ
    ∷ (if cfg.run_dry_run then diff_exec ∷ write_output ∷ [] else prune_plan cfg)

unfoldable pub package_plan : RunConfig → List Call
package_plan cfg =
    if cfg.run_destroy
    then []
    else get_input_vars
      ∷ get_output_sink
      ∷ parse_and_run (record {
        kform_kind = regular_run;
        kform_dry_run = cfg.run_dry_run;
        kform_destroy = false;
      })
      ∷ []

unfoldable pub run_plan : RunConfig → List Call
unfolding package_plan compare_plan
run_plan cfg =
    (if cfg.inventory_id == [] then get_inventory_info else get_fake_inventory_info)
    ∷ new_manager
    ∷ get_inventory
    ∷ read_inventory
    ∷ parse_and_run (record {
      kform_kind = inventory_run;
      kform_dry_run = cfg.run_dry_run;
      kform_destroy = false;
    })
    ∷ (package_plan cfg ++ compare_plan cfg)

abbrev flags : Str → Bool → Bool → RunConfig
flags id dry destroyed = record { inventory_id = id; run_dry_run = dry; run_destroy = destroyed }

module _ {ℓ} {S : Type ℓ} (perform : Call → S → S × Option Str) where
  run_kform-flags :
      (id : Str) (dry destroyed : Bool) (t : Trace Call S)
      → run_kform perform (flags id dry destroyed) t
        ≡ perform_all perform (run_plan (flags id dry destroyed)) t
  unfolding run_kform apply_package compare_and_prune prune run_plan package_plan compare_plan
      prune_plan perform_all
  run_kform-flags id true true t = refl
  run_kform-flags id true false t = refl
  run_kform-flags id false true t = refl
  run_kform-flags id false false t = refl

  -- A run makes the calls of its plan in their order, up to the first one that returns an error.
  pub run_kform-plan :
      (cfg : RunConfig) (t : Trace Call S)
      → run_kform perform cfg t ≡ perform_all perform (run_plan cfg) t
  run_kform-plan cfg t = run_kform-flags (cfg.inventory_id) (cfg.run_dry_run) (cfg.run_destroy) t

-- The calls that change the cluster or the inventory.
unfoldable pub changes : Call → Bool
changes (parse_and_run cfg) = not (cfg.kform_dry_run)
changes delete_inventory = true
changes apply_inventory = true
changes _ = false

module _ {ℓ} {S : Type ℓ} (perform : Call → S → S × Option Str) where
  dry_plan :
      (id : Str) (destroyed : Bool)
      → All (λ c. changes c ≡ false) (run_plan (flags id true destroyed))
  unfolding changes run_plan package_plan compare_plan
  dry_plan id true = ground arith
  dry_plan id false = ground arith

  -- A dry run makes no call that changes the cluster or the inventory, whatever fails.
  pub dry_run_changes :
      (cfg : RunConfig) (w : S)
      → cfg.run_dry_run ≡ true
      → All
          (λ c. changes c ≡ false)
          ((run_kform perform cfg (record { world = w; calls = []; failure = none })).calls)
  dry_run_changes cfg w h =
      let t : Trace Call S = record { world = w; calls = []; failure = none } in
      subst (λ r. All (λ c. changes c ≡ false) (r.calls)) (sym (run_kform-plan perform cfg t))
        (All-perform_all (λ c. changes c ≡ false) perform (run_plan cfg) t tt
          (subst
            (λ b.
              All (λ c. changes c ≡ false)
                (run_plan (flags (cfg.inventory_id) b (cfg.run_destroy))))
            (sym h) (dry_plan (cfg.inventory_id) (cfg.run_destroy))))
