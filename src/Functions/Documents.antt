-- ===== src/Functions/Documents.antt =====
-- Which documents of a block are sent to the provider: the loop of `Run` of run_resource.go.
use kform.Shared.{List, [], ap, arith, err, length, ok, refl, ℕ, ◌+◌, ◌∙◌, ◌∷◌, ◌≡◌, ◌≢◌}
use kform.Functions.Loop.{
  LoopState, Next, and_then, continues, ends_with, fails_with, iterate, iterate_all, send, to_send,
}
use kform.Functions.World.{Env, FnConfig, Ran, inventory_run}
use kform.Package.Graph.{VertexContext}

module _ {ℓ} {N B A V K R I P W : Type ℓ} (e : Env N B A V K R I P W) (cfg : FnConfig)
    (instances : I) (vctx : VertexContext N) where
  to_send-first :
      (first rn rn' : N) (s : LoopState V R W A)
      → cfg.run_kind ≢ inventory_run
      → to_send e cfg s first rn ≡ to_send e cfg s first rn'
  unfolding to_send
  to_send-first first rn rn' s h = ground arith

  iterate-first :
      (idx : ℕ) (first rn rn' : N) (s : LoopState V R W A)
      → cfg.run_kind ≢ inventory_run
      → iterate e cfg instances vctx idx first rn s ≡ iterate e cfg instances vctx idx first rn' s
  unfolding iterate
  iterate-first idx first rn rn' s h =
      ap
        (λ r. elim r as (λ _. Next (LoopState V R W A)) [
          | err m ↦ fails_with s m
          | ok n ↦ send e cfg instances vctx idx n s
        ])
        (to_send-first first rn rn' s h)

  and_then-ext :
      (r : Next (LoopState V R W A)) (f g : LoopState V R W A → Ran (LoopState V R W A))
      → ((t : LoopState V R W A) → f t ≡ g t)
      → and_then r f ≡ and_then r g
  and_then-ext (continues s) f g h = h s
  and_then-ext (ends_with r) f g h = refl

  -- In a run that is not one of the inventory, a resource function reads nothing of the documents
  -- but the first one and their number: it sends the first one once for each of them.
  pub iterate_all-first :
      (first : N) (idx : ℕ) (rns rns' : List N) (s : LoopState V R W A)
      → cfg.run_kind ≢ inventory_run
      → length rns ≡ length rns'
      → iterate_all e cfg instances vctx first idx rns s
        ≡ iterate_all e cfg instances vctx first idx rns' s
  unfolding iterate_all
  iterate_all-first first idx [] [] s h l = refl
  iterate_all-first first idx [] (_ ∷ _) s h l = absurd (omega arith)
  iterate_all-first first idx (_ ∷ _) [] s h l = absurd (omega arith)
  iterate_all-first first idx (rn ∷ rns) (rn' ∷ rns') s h l =
      let later = λ (ns : List N) (t : LoopState V R W A).
        iterate_all e cfg instances vctx first (idx + 1) ns t in
      ap (λ r. and_then r (later rns)) (iterate-first idx first rn rn' s h)
      ∙ and_then-ext (iterate e cfg instances vctx idx first rn' s) (later rns) (later rns')
          (λ t. iterate_all-first first (idx + 1) rns rns' t h (omega arith))
