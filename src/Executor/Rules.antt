-- ===== src/Executor/Rules.antt =====
-- Induction on the steps of pkg/exec/executor.
use kform.Shared.{
  Bool, List, Option-cases, [], false, get_elem?, if◌then◌else◌, inl, inr, some, true, ℕ, ◌∷◌, ◌≡◌,
}
use kform.Dag.Edges.{Dag}
use kform.Dag.Reduction.Walk.{Order}
use kform.Executor.Channels.{ExecMap}
use kform.Executor.System.{
  Choice, Sys, Task, cancel, choose, deliver, ends, exchange, finish, hand_in, meet, perform, run,
  step, tick,
}

module _ {ℓ κ} {V : Type ℓ} (ord : Order) (d : Dag V) (m : ExecMap) (P : Sys → Type κ) where
  pub record IsKept : Type κ where
    pub perform_kept :
        (i : ℕ) (t : Task) (s : Sys)
        → get_elem? s.tasks i ≡ some t
        → P s
        → P (perform ord d m i t s)
    pub finish_kept :
        (i : ℕ) (b : Bool) (t : Task) (s : Sys)
        → get_elem? s.tasks i ≡ some t
        → P s
        → P (finish ord m i b t s)
    pub exchange_kept :
        (i j : ℕ) (t u : Task) (s : Sys)
        → get_elem? s.tasks i ≡ some t
        → get_elem? s.tasks j ≡ some u
        → P s
        → P (exchange i j t u s)
    pub hand_in_kept :
        (i j : ℕ) (t u : Task) (s : Sys)
        → get_elem? s.tasks i ≡ some t
        → get_elem? s.tasks j ≡ some u
        → P s
        → P (hand_in i j t u s)
    pub cancel_kept : (s : Sys) → P s → P (record s { cancelled = true })

  choose_rule : IsKept → (c : Choice) (s : Sys) → P s → P (choose ord d m c s)
  unfolding choose
  choose_rule kept (tick i) s h = elim (Option-cases (get_elem? s.tasks i)) [
    | inl missing ↦ rw (missing, choose) h
    | inr (t, e) ↦ rw (e, choose) (kept.perform_kept i t s e h)
  ]
  choose_rule kept (ends i b) s h = elim (Option-cases (get_elem? s.tasks i)) [
    | inl missing ↦ rw (missing, choose) h
    | inr (t, e) ↦ rw (e, choose) (kept.finish_kept i b t s e h)
  ]
  choose_rule kept (meet i j) s h = elim (Option-cases (get_elem? s.tasks i)) [
    | inl missing ↦ rw (missing, choose) h
    | inr (t, e) ↦ elim (Option-cases (get_elem? s.tasks j)) [
      | inl missing ↦ rw (e, choose, missing) h
      | inr (u, e') ↦ rw (e, choose, e') (kept.exchange_kept i j t u s e e' h)
    ]
  ]
  choose_rule kept (deliver i j) s h = elim (Option-cases (get_elem? s.tasks i)) [
    | inl missing ↦ rw (missing, choose) h
    | inr (t, e) ↦ elim (Option-cases (get_elem? s.tasks j)) [
      | inl missing ↦ rw (e, choose, missing) h
      | inr (u, e') ↦ rw (e, choose, e') (kept.hand_in_kept i j t u s e e' h)
    ]
  ]
  choose_rule kept cancel s h = kept.cancel_kept s h

  P-if : (b : Bool) (x y : Sys) → P x → P y → P (if b then x else y)
  P-if true x y hx hy = hx
  P-if false x y hx hy = hy

  pub run_rule : IsKept → (cs : List Choice) (s : Sys) → P s → P (run ord d m cs s)
  unfolding run step
  run_rule kept [] s h = h
  run_rule kept (c ∷ cs) s h =
      run_rule kept cs (step ord d m c s) (P-if s.panicked s _ h (choose_rule kept c s h))
