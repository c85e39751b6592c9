-- ===== src/Runner/Examples.antt =====
-- Examples for the runner: a world that lists the calls that fail.
use kform.Shared.{All, Option, Str, [], any, false, none, refl, some, str, true, ℕ, ◌+◌, ◌≡◌}
use kform.Runner.Kform.{
  KformCall, deferred, is_close, is_package_run, parse_and_run_kform, parse_and_run_kform-close,
  run_kform_dag,
}
use kform.Runner.Plan.{changes, dry_run_changes}
use kform.Runner.Run.{Call, run_kform, write_output}
use kform.Runner.Stages.{Trace, try_call}

-- The call of `write_output` fails, no other one does.
abbrev only_write_fails : Call → ℕ → ℕ × Option Str
only_write_fails c n = (n + 1, elim c [ write_output ↦ some (str "no space") | _ ↦ none ])

dry_run_example :
    All
      (λ c. changes c ≡ false)
      ((run_kform only_write_fails
        (record { inventory_id = []; run_dry_run = true; run_destroy = false })
        (record { world = 0; calls = []; failure = none })).calls)
dry_run_example =
    dry_run_changes only_write_fails
      (record { inventory_id = []; run_dry_run = true; run_destroy = false }) 0 refl

-- The run of the package fails.
abbrev package_fails : KformCall → ℕ → ℕ × Option Str
package_fails c n = (n + 1, elim c [ run_kform_dag ↦ some (str "failed") | _ ↦ none ])

abbrev at_start : Trace KformCall ℕ
at_start = record { world = 0; calls = []; failure = none }

-- The providers are closed, and the error stays.
closed_with_error : (parse_and_run_kform package_fails at_start).failure ≡ some (str "failed")
unfolding parse_and_run_kform try_call deferred
closed_with_error = refl

close_example :
    any is_close ((parse_and_run_kform package_fails at_start).calls)
    ≡ any is_package_run ((parse_and_run_kform package_fails at_start).calls)
close_example = parse_and_run_kform-close package_fails 0
