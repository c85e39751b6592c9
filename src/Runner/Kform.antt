-- ===== src/Runner/Kform.antt =====
-- `ParseAndRun`, `runProviderDAG` and `runKformDAG` of pkg/exec/kform/runner/kform.go.
use kform.Shared.{
  Bool, List, Option, Option-cases, Str, [], any, any-append, ap, arith, false, inl, inr, none,
  refl, sym, true, ◌++◌, ◌∷◌, ◌≡◌,
}
use kform.Runner.Stages.{
  Trace, called, perform_all, perform_all-Stops, try_call, try_call-none, try_call-some,
  unless_failed,
}

pub data KformCall : Type 0 where
  new_kform_parser : KformCall
  parse_packages : KformCall
  init_providers : KformCall
  get_empty_provider_instances : KformCall
  get_root_package : KformCall
  run_provider_dag : KformCall
  run_kform_dag : KformCall
  -- the deferred loop over the provider instances, which returns no error
  close_providers : KformCall

unfoldable pub is_close : KformCall → Bool
is_close close_providers = true
is_close _ = false

unfoldable pub is_package_run : KformCall → Bool
is_package_run run_kform_dag = true
is_package_run _ = false

module _ {ℓ} {S : Type ℓ} (perform : KformCall → S → S × Option Str) where
  -- The deferred call at the end of the function: the error stays.
  unfoldable pub deferred : KformCall → Trace KformCall S → Trace KformCall S
  deferred c t = record (called perform c t) { failure = t.failure }

  -- `ParseAndRun`: the deferred call is registered once the providers run.
  unfoldable pub parse_and_run_kform : Trace KformCall S → Trace KformCall S
  unfolding try_call deferred
  parse_and_run_kform t = try_call perform new_kform_parser t (λ t.
      try_call perform parse_packages t (λ t. try_call perform init_providers t (λ t.
        try_call perform get_empty_provider_instances t (λ t.
          try_call perform get_root_package t (λ t.
            try_call perform run_provider_dag t
              (λ t. deferred close_providers (called perform run_kform_dag t)))))))

  -- The calls up to the run of the providers.
  abbrev pub opening : List KformCall
  opening =
      new_kform_parser ∷ parse_packages ∷ init_providers ∷ get_empty_provider_instances
      ∷ get_root_package ∷ run_provider_dag ∷ []

  -- A list of calls, and what follows if none of them fails.
  all_then :
      List KformCall
      → (Trace KformCall S → Trace KformCall S)
      → Trace KformCall S
      → Trace KformCall S
  all_then [] f t = f t
  all_then (c ∷ cs) f t = try_call perform c t (λ t'. all_then cs f t')

  all_then_lem :
      (cs : List KformCall) (f : Trace KformCall S → Trace KformCall S) (t : Trace KformCall S)
      → t.failure ≡ none
      → all_then cs f t
        ≡ unless_failed
            ((perform_all perform cs t).failure)
            (perform_all perform cs t)
            (f (perform_all perform cs t))
  unfolding all_then perform_all
  all_then_lem [] f t h = ap (λ o. unless_failed o t (f t)) (sym h)
  all_then_lem (c ∷ cs) f t h =
      let t' = called perform c t in
      let a = λ (r : Trace KformCall S). all_then cs f r in
      let b = λ (r : Trace KformCall S). perform_all perform cs r in
      elim (Option-cases (t'.failure)) [
        | inl e ↦
            rw (try_call-none perform c t a e, try_call-none perform c t b e)
              (all_then_lem cs f t' e)
        | inr (m, e) ↦
            rw (try_call-some perform c t a m e, try_call-some perform c t b m e)
              (sym (ap (λ o. unless_failed o t' (f t')) e))
      ]

  parse_and_run_kform_lem :
      (t : Trace KformCall S)
      → t.failure ≡ none
      → parse_and_run_kform t
        ≡ unless_failed ((perform_all perform opening t).failure) (perform_all perform opening t) (
            deferred close_providers (called perform run_kform_dag (perform_all perform opening t)))
  unfolding parse_and_run_kform all_then
  parse_and_run_kform_lem t h =
      all_then_lem opening (λ r. deferred close_providers (called perform run_kform_dag r)) t h

  -- The providers are closed exactly if the DAG of the package was run, whatever fails: also when
  -- that run fails, and never after an earlier call that fails.
  pub parse_and_run_kform-close :
      (w : S)
      → let r = parse_and_run_kform (record { world = w; calls = []; failure = none }) in
        any is_close (r.calls) ≡ any is_package_run (r.calls)
  unfolding is_close is_package_run deferred
  parse_and_run_kform-close w =
      let t : Trace KformCall S = record { world = w; calls = []; failure = none } in
      let p = perform_all perform opening t in
      let (done, left, f, g, _) = perform_all-Stops perform opening t in
      let one = run_kform_dag ∷ [] in
      let two = close_providers ∷ [] in
      rw (parse_and_run_kform_lem t refl) (elim (Option-cases (p.failure)) [
        | inl e ↦ rw e (
            ground (
              arith,
              any-append is_close (p.calls) one,
              any-append is_close (p.calls ++ one) two,
              any-append is_package_run (p.calls) one,
              any-append is_package_run (p.calls ++ one) two,
            ))
        | inr (m, e) ↦
            let not_closed : false ≡ any is_close (done ++ left) = ap (any is_close) g in
            let not_run : false ≡ any is_package_run (done ++ left) = ap (any is_package_run) g in
            rw (e, f)
              (ground (
                arith,
                not_closed,
                not_run,
                any-append is_close done left,
                any-append is_package_run done left,
              ))
      ])
