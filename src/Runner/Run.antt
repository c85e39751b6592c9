-- ===== src/Runner/Run.antt =====
-- `Run` of runner.go and `ParseAndRun` of kform.go.
use kform.Shared.{Bool, Option, Str, [], false, if◌then◌else◌, str_eq, true, ◌==◌}
use kform.Functions.World.{DagRun, inventory_run, regular_run}
use kform.Runner.Stages.{Trace, try_call}

-- `KformConfig`, without the data that the world holds.
pub record KformConfig : Type 0 where
  pub kform_kind : DagRun
  pub kform_dry_run : Bool
  pub kform_destroy : Bool

-- What a run is asked for.
pub record RunConfig : Type 0 where
  pub inventory_id : Str
  pub run_dry_run : Bool
  pub run_destroy : Bool

pub data Call : Type 0 where
  -- `config.GetFakeInventoryInfo` returns no error, `config.GetInventoryInfo` may
  get_fake_inventory_info : Call
  get_inventory_info : Call
  new_manager : Call
  get_inventory : Call
  read_inventory : Call
  parse_and_run : KformConfig → Call
  get_input_vars : Call
  get_output_sink : Call
  new_differ : Call
  run_differ : Call
  diff_exec : Call
  resources_to_delete : Call
  delete_inventory : Call
  apply_inventory : Call
  write_output : Call

module _ {ℓ} {S : Type ℓ} (perform : Call → S → S × Option Str) where
  abbrev RunTrace : Type ℓ
  RunTrace = Trace Call S

  -- The end of a run that is not dry: the objects that are left over are destroyed, and the
  -- inventory is deleted or written.
  unfoldable pub prune : RunConfig → RunTrace → RunTrace
  unfolding try_call
  prune cfg t = try_call perform resources_to_delete t (λ t.
      try_call perform
        (parse_and_run (record {
          kform_kind = inventory_run;
          kform_dry_run = cfg.run_dry_run;
          kform_destroy = true;
        }))
        t
        (λ t.
          if cfg.run_destroy
          then try_call perform delete_inventory t (λ t. t)
          else try_call perform apply_inventory t (λ t. try_call perform write_output t (λ t. t))))

  -- From the differ on.
  unfoldable pub compare_and_prune : RunConfig → RunTrace → RunTrace
  unfolding try_call prune
  compare_and_prune cfg t = try_call perform new_differ t (λ t. try_call perform run_differ t (λ t.
      if cfg.run_dry_run
      then try_call perform diff_exec t (λ t. try_call perform write_output t (λ t. t))
      else prune cfg t))

  -- The regular run, which is left out when all is destroyed.
  unfoldable pub apply_package : RunConfig → RunTrace → RunTrace
  unfolding try_call compare_and_prune
  apply_package cfg t =
      if cfg.run_destroy
      then compare_and_prune cfg t
      else try_call perform get_input_vars t (λ t. try_call perform get_output_sink t (λ t.
        try_call perform
          (parse_and_run (record {
            kform_kind = regular_run;
            kform_dry_run = cfg.run_dry_run;
            kform_destroy = false;
          }))
          t (λ t. compare_and_prune cfg t)))

  -- `Run`
  unfoldable pub run_kform : RunConfig → RunTrace → RunTrace
  unfolding try_call apply_package
  run_kform cfg t =
      let info = if cfg.inventory_id == [] then get_inventory_info else get_fake_inventory_info in
      try_call perform info t (λ t. try_call perform new_manager t (λ t.
        try_call perform get_inventory t (λ t. try_call perform read_inventory t (λ t.
          try_call perform
            (parse_and_run (record {
              kform_kind = inventory_run;
              kform_dry_run = cfg.run_dry_run;
              kform_destroy = false;
            }))
            t (λ t. apply_package cfg t)))))
