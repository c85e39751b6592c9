-- ===== src/Functions/Rule.antt =====
-- What every call of a provider keeps, `Run` of run_resource.go keeps.
use kform.Shared.{List, List-cases, Option-cases, Result-cases, [], inl, inr, ℕ, ◌+◌, ◌∷◌}
use kform.Functions.Loop.{
  LoopState, Next, and_then, call_provider, continues, ends_with, iterate, iterate_all,
  provider_client, run_resource, send, stripped, to_send,
}
use kform.Functions.World.{Env, FnConfig, Ran}
use kform.Package.Graph.{VertexContext}
use kform.Package.Nodes.{get_copies}

-- The state after an iteration.
abbrev pub state_after {ℓ} : {S : Type ℓ} → Next S → S
state_after (continues s) = s
state_after (ends_with r) = r.after

-- A relation between the state before and the state after, which holds of each call.
pub record IsKeptBy {ℓ κ} {N B A V K R I P W : Type ℓ} (e : Env N B A V K R I P W) (cfg : FnConfig)
    (vctx : VertexContext N) (Rel : LoopState V R W A → LoopState V R W A → Type κ)
    : Type (ℓ ⊔ κ) where
  pub same : (s : LoopState V R W A) → Rel s s
  pub joined : (s t r : LoopState V R W A) → Rel s t → Rel t r → Rel s r
  pub called :
      (idx : ℕ) (p : P) (rn : N) (b : B) (s : LoopState V R W A)
      → Rel s (state_after (call_provider e cfg vctx idx p rn b s))

module _ {ℓ κ} {N B A V K R I P W : Type ℓ} (e : Env N B A V K R I P W) (cfg : FnConfig)
    (vctx : VertexContext N) (Rel : LoopState V R W A → LoopState V R W A → Type κ)
    (kept : IsKeptBy e cfg vctx Rel) (instances : I) where
  send_rule :
      (idx : ℕ) (rn : N) (s : LoopState V R W A)
      → Rel s (state_after (send e cfg instances vctx idx rn s))
  unfolding send
  send_rule idx rn s = elim (Result-cases (e.codec.to_json (stripped e rn))) [
    | inr (m, f) ↦ rw (f, send) (kept.same s)
    | inl (b, f) ↦ elim (Option-cases (vctx.vertex_attributes)) [
      | inl g ↦ rw (f, send, g) (kept.same s)
      | inr (attrs, g) ↦
          elim (Result-cases
            (provider_client e instances (attrs.provider_name) (vctx.vertex_block))) [
              | inr (m, h) ↦ rw (f, send, g, h) (kept.same s)
              | inl (p, h) ↦ rw (f, send, g, h) (kept.called idx p (stripped e rn) b s)
            ]
    ]
  ]

  iterate_rule :
      (idx : ℕ) (first rn : N) (s : LoopState V R W A)
      → Rel s (state_after (iterate e cfg instances vctx idx first rn s))
  unfolding iterate
  iterate_rule idx first rn s = elim (Result-cases (to_send e cfg s first rn)) [
    | inl (n, f) ↦ rw (f, iterate) (send_rule idx n s)
    | inr (m, f) ↦ rw (f, iterate) (kept.same s)
  ]

  and_then_rule :
      (s : LoopState V R W A) (r : Next (LoopState V R W A))
      (f : LoopState V R W A → Ran (LoopState V R W A))
      → Rel s (state_after r)
      → ((t : LoopState V R W A) → Rel t ((f t).after))
      → Rel s ((and_then r f).after)
  and_then_rule s (continues t) f h g = kept.joined s t ((f t).after) h (g t)
  and_then_rule s (ends_with r) f h g = h

  iterate_all_rule :
      (first : N) (idx : ℕ) (rns : List N) (s : LoopState V R W A)
      → Rel s ((iterate_all e cfg instances vctx first idx rns s).after)
  unfolding iterate_all
  iterate_all_rule first idx [] s = kept.same s
  iterate_all_rule first idx (rn ∷ rns) s =
      and_then_rule s (iterate e cfg instances vctx idx first rn s)
        (λ t. iterate_all e cfg instances vctx first (idx + 1) rns t) (iterate_rule idx first rn s)
        (λ t. iterate_all_rule first (idx + 1) rns t)

  pub run_resource_rule :
      (s : LoopState V R W A) → Rel s ((run_resource e cfg instances vctx s).after)
  unfolding run_resource
  run_resource_rule s = elim (List-cases (get_copies ⦃y = e.nodes⦄ (vctx.vertex_data))) [
    | inl f ↦ rw (f, run_resource) (kept.same s)
    | inr (first, rest, f) ↦ rw (f, run_resource) (iterate_all_rule first 0 (first ∷ rest) s)
  ]
