-- ===== src/Runner/Stages.antt =====
-- The calls that runner.go and kform.go of pkg/exec/kform/runner make, in their order: each one
-- changes the world and may return an error, which ends the function.
use mathlib.Core.List.{append-nil, append_assoc}
use kform.Shared.{
  All, All-append, List, Option, Option-cases, Str, [], ap, inl, inr, none, refl, some, subst, sym,
  ◌++◌, ◌∙◌, ◌∷◌, ◌≡◌,
}
use kform.Executor.System.{perform}

-- The calls so far, in their order, and the error that ended them.
pub record Trace {ℓ κ} (C : Type ℓ) (S : Type κ) : Type (ℓ ⊔ κ) where
  pub world : S
  pub calls : List C
  pub failure : Option Str

module _ {ℓ κ} {C : Type ℓ} {S : Type κ} where
  -- The world after the call, with the call noted.
  abbrev pub called : (C → S → S × Option Str) → C → Trace C S → Trace C S
  called perform c t =
      let r = perform c (t.world) in
      record { world = r.0; calls = t.calls ++ c ∷ []; failure = r.1 }

  -- A call, and what follows it unless it returns an error.
  unfoldable pub try_call :
      (C → S → S × Option Str) → C → Trace C S → (Trace C S → Trace C S) → Trace C S
  try_call perform c t then_do = elim (called perform c t).failure [
    | none ↦ then_do (called perform c t)
    | some _ ↦ called perform c t
  ]

  -- The reference: the calls of a list, up to the first one that fails.
  unfoldable pub perform_all : (C → S → S × Option Str) → List C → Trace C S → Trace C S
  unfolding try_call
  perform_all perform [] t = t
  perform_all perform (c ∷ cs) t = try_call perform c t (λ t'. perform_all perform cs t')

  -- The first trace if there was an error, else the second one.
  abbrev pub unless_failed : Option Str → Trace C S → Trace C S → Trace C S
  unless_failed none stopped going = going
  unless_failed (some _) stopped going = stopped

  pub try_call_lem :
      (perform : C → S → S × Option Str) (c : C) (t : Trace C S) (f : Trace C S → Trace C S)
      → try_call perform c t f
        ≡ unless_failed ((called perform c t).failure) (called perform c t) (f (called perform c t))
  unfolding try_call
  try_call_lem perform c t f =
      elim ((called perform c t).failure)
        as (λ o.
          elim o as (λ _. Trace C S) [ none ↦ f (called perform c t) | some _ ↦ called perform c t ]
          ≡ unless_failed o (called perform c t) (f (called perform c t))) [
            | none ↦ refl
            | some _ ↦ refl
          ]

  pub try_call-none :
      (perform : C → S → S × Option Str) (c : C) (t : Trace C S) (f : Trace C S → Trace C S)
      → (called perform c t).failure ≡ none
      → try_call perform c t f ≡ f (called perform c t)
  try_call-none perform c t f h =
      try_call_lem perform c t f
      ∙ ap (λ o. unless_failed o (called perform c t) (f (called perform c t))) h

  pub try_call-some :
      (perform : C → S → S × Option Str) (c : C) (t : Trace C S) (f : Trace C S → Trace C S)
      (m : Str)
      → (called perform c t).failure ≡ some m
      → try_call perform c t f ≡ called perform c t
  try_call-some perform c t f m h =
      try_call_lem perform c t f
      ∙ ap (λ o. unless_failed o (called perform c t) (f (called perform c t))) h

  -- What was called is the calls before and a first part of the list; all of it exactly if there
  -- was no error.
  abbrev pub Stops : List C → Trace C S → Trace C S → Type ℓ
  Stops cs t r =
      (done left : List C) × (r.calls ≡ t.calls ++ done)
      × (cs ≡ done ++ left)
      × ((r.failure ≡ none) → left ≡ [])

  pub perform_all-Stops :
      (perform : C → S → S × Option Str) (cs : List C) (t : Trace C S)
      → Stops cs t (perform_all perform cs t)
  unfolding perform_all try_call
  perform_all-Stops perform [] t = ([], [], sym (append-nil (t.calls)), refl, λ _. refl)
  perform_all-Stops perform (c ∷ cs) t = elim (Option-cases (called perform c t).failure) [
    | inl e ↦
        let (done, left, f, g, h) = perform_all-Stops perform cs (called perform c t) in
        rw (e, try_call)
          (c ∷ done, left, f ∙ append_assoc (t.calls) (c ∷ []) done, ap (λ l. c ∷ l) g, h)
    | inr (m, e) ↦ rw (e, try_call) (c ∷ [], cs, refl, refl, λ f. cc)
  ]

  -- What holds of all calls of the list holds of all that were made.
  pub All-perform_all {μ} :
      (P : C → Type μ) (perform : C → S → S × Option Str) (cs : List C) (t : Trace C S)
      → All P (t.calls)
      → All P cs
      → All P ((perform_all perform cs t).calls)
  All-perform_all P perform cs t before h =
      let (done, left, f, g, _) = perform_all-Stops perform cs t in
      subst (All P) (sym f)
        (All-append P (t.calls) done before (All-front done left (subst (All P) g h)))
    where
      All-front : (done left : List C) → All P (done ++ left) → All P done
      All-front [] left h = tt
      All-front (c ∷ done) left h = (h.0, All-front done left h.1)
