-- ===== src/Parser/Settled.antt =====
-- What every schedule of the goroutines of pkgparser/validator.go leaves, once all have ended.
use kform.Shared.{All, List, Storer, [], ap, map, refl, subst, suc, true, zero, ℕ, ◌∙◌, ◌∷◌, ◌≡◌}
use kform.Package.Blocks.{Block, Ctx}
use kform.Package.Intake.{Intake}
use kform.Package.Nodes.{Nodes}
use kform.Parser.Placed.{
  IsFine, Keeps, Keeps-records, KeepsNames-trans, Settled, Settled-kept, origin,
}
use kform.Parser.Steps.{step_task-IsGood}
use kform.Parser.Tasks.{
  Worker, all_ended, at_end, run_tasks, start_tasks, step_at, step_task, to_act, to_look, to_store,
}

module _ {ℓ} {N : Type ℓ} ⦃y : Nodes N⦄ where
  start_tasks-origin : (cs : List (Ctx N)) → map origin (start_tasks cs) ≡ cs
  unfolding start_tasks
  start_tasks-origin [] = refl
  start_tasks-origin (c ∷ cs) = ap (λ ds. c ∷ ds) (start_tasks-origin cs)

module _ {ℓ κ} {N : Type ℓ} {S : Type κ} ⦃y : Nodes N⦄ ⦃st : Storer (Block N) S⦄ where
  abbrev pub AllFine : List (Worker N) → Intake N S → Type (ℓ ⊔ κ)
  AllFine [] t = Unit
  AllFine (a ∷ ts) t = IsFine a t × AllFine ts t

  IsFine-kept : (a : Worker N) (t t' : Intake N S) → Keeps t t' → IsFine a t → IsFine a t'
  IsFine-kept (to_look c) t t' k h = tt
  IsFine-kept (to_act c seen) t t' k h = tt
  IsFine-kept (to_store c b) t t' k h = h
  IsFine-kept (at_end c) t t' k h = Settled-kept c t t' k h

  AllFine-kept :
      (ts : List (Worker N)) (t t' : Intake N S) → Keeps t t' → AllFine ts t → AllFine ts t'
  AllFine-kept [] t t' k h = tt
  AllFine-kept (a ∷ ts) t t' k h = (IsFine-kept a t t' k h.0, AllFine-kept ts t t' k h.1)

  Keeps-trans : (t u v : Intake N S) → Keeps t u → Keeps u v → Keeps t v
  Keeps-trans t u v f g = record {
    louder = λ e. g.louder (f.louder e);
    pkg_kept = λ p e.
        let (q, e', m) = f.pkg_kept p e in
        let (r, e'', n) = g.pkg_kept q e' in (r, e'', KeepsNames-trans p q r m n);
  }

  -- What is promised of a run of the goroutines.
  abbrev pub AreGood : List (Worker N) → Intake N S → List (Worker N) × Intake N S → Type (ℓ ⊔ κ)
  AreGood ts t r = Keeps t (r.1) × AllFine (r.0) (r.1) × (map origin (r.0) ≡ map origin ts)

  step_at-AreGood :
      (i : ℕ) (ts : List (Worker N)) (t : Intake N S) → AllFine ts t → AreGood ts t (step_at i ts t)
  unfolding step_at
  step_at-AreGood i [] t h = (Keeps-records t (t.records) (λ e. e), tt, refl)
  step_at-AreGood zero (a ∷ ts) t h =
      let (k, f, o) = step_task-IsGood a t h.0 in
      (k, (f, AllFine-kept ts t ((step_task a t).1) k h.1), ap (λ c. c ∷ map origin ts) o)
  step_at-AreGood (suc i) (a ∷ ts) t h =
      let (k, f, o) = step_at-AreGood i ts t h.1 in
      (k, (IsFine-kept a t ((step_at i ts t).1) k h.0, f), ap (λ cs. origin a ∷ cs) o)

  pub run_tasks-AreGood :
      (is : List ℕ) (ts : List (Worker N)) (t : Intake N S)
      → AllFine ts t
      → AreGood ts t (run_tasks is ts t)
  unfolding run_tasks
  run_tasks-AreGood [] ts t h = (Keeps-records t (t.records) (λ e. e), h, refl)
  run_tasks-AreGood (i ∷ is) ts t h =
      let (k, f, o) = step_at-AreGood i ts t h in
      let r = step_at i ts t in
      let (k', f', o') = run_tasks-AreGood is (r.0) (r.1) f in
      (Keeps-trans t (r.1) ((run_tasks is (r.0) (r.1)).1) k k', f', o' ∙ o)

  start_tasks-AllFine : (cs : List (Ctx N)) (t : Intake N S) → AllFine (start_tasks cs) t
  unfolding start_tasks
  start_tasks-AllFine [] t = tt
  start_tasks-AllFine (c ∷ cs) t = (tt, start_tasks-AllFine cs t)

  all_ended-Settled :
      (ts : List (Worker N)) (t : Intake N S)
      → all_ended ts ≡ true
      → AllFine ts t
      → All (λ c. Settled c t) (map origin ts)
  unfolding all_ended
  all_ended-Settled [] t e h = tt
  all_ended-Settled (at_end c ∷ ts) t e h = (h.0, all_ended-Settled ts t e h.1)
  all_ended-Settled (to_look c ∷ ts) t e h = absurd (let g = e in cc)
  all_ended-Settled (to_act c seen ∷ ts) t e h = absurd (let g = e in cc)
  all_ended-Settled (to_store c b ∷ ts) t e h = absurd (let g = e in cc)

  -- Under every schedule that ends all goroutines, each document has its place or there is an error.
  pub run_tasks-Settled :
      (is : List ℕ) (cs : List (Ctx N)) (t : Intake N S)
      → let r = run_tasks is (start_tasks cs) t in
        all_ended (r.0) ≡ true → Keeps t (r.1) × All (λ c. Settled c (r.1)) cs
  run_tasks-Settled is cs t e =
      let r = run_tasks is (start_tasks cs) t in
      let (k, f, o) = run_tasks-AreGood is (start_tasks cs) t (start_tasks-AllFine cs t) in
      (
        k,
        subst (All (λ c. Settled c (r.1))) (o ∙ start_tasks-origin cs)
            (all_ended-Settled (r.0) (r.1) e f),
      )
