-- ===== src/Dag/Reduction/Rules.antt =====
-- Rules for the walk of pkg/dag/tr.go: what every visit keeps of the graph, the walk keeps.
use kform.Shared.{
  Bool, Bool-cases, List, Option, Option-cases, Str, [], arith, contains, contains-head,
  contains-tail, eq_iff, false, inl, inr, keep, none, some, str_eq, suc, true, zero, ℕ, ◌+◌, ◌==◌,
  ◌∷◌, ◌≡◌, ◌⊎◌,
}
use kform.Dag.Edges.{Dag}
use kform.Dag.Reduction.Walk.{
  Order, Walk, WalkConfig, depth_walk, enter, reduce_from, reduce_walk, trwalk, walk_all,
}

module _ {ℓ κ} {V : Type ℓ} (ord : Order) (P : Dag V → Type κ) where
  -- A visit keeps `P`.
  abbrev pub IsKept : WalkConfig V → Type (ℓ ⊔ κ)
  IsKept wc =
      (from : Str) (init : Bool) (depth : ℕ) (w : Walk V)
      → P w.dag
      → P (enter ord wc from init depth w).dag

  -- A loop keeps `P` if the visit of each listed vertex does.
  pub walk_all_rule_on :
      (visit : Str → Walk V → Option (Walk V)) (xs : List Str)
      → ((x : Str) (w t : Walk V) → contains xs x ≡ true → visit x w ≡ some t → P w.dag → P t.dag)
      → (w t : Walk V) → walk_all ord visit xs w ≡ some t
      → P w.dag
      → P t.dag
  unfolding walk_all
  walk_all_rule_on visit [] keep w t e p = ground arith
  walk_all_rule_on visit (x ∷ xs) keep w t e p = elim (Option-cases (visit x w)) [
    | inl stuck ↦ ground arith
    | inr (w', went) ↦
        walk_all_rule_on visit xs (λ y w₁ t₁ m. keep y w₁ t₁ (contains-tail x y xs m)) w' t
          (rw (went, walk_all) at e) (keep x w w' (contains-head x xs) went p)
  ]

  -- A loop gets stuck if the visit of a listed vertex does, and the others keep `P`.
  pub walk_all_stuck :
      (visit : Str → Walk V → Option (Walk V)) (xs : List Str)
      → ((x : Str) (w : Walk V)
          → P w.dag
          → (visit x w ≡ none) ⊎ ((t : Walk V) × (visit x w ≡ some t) × P t.dag))
      → (y : Str) → ((w : Walk V) → P w.dag → visit y w ≡ none)
      → contains xs y ≡ true
      → (w : Walk V) → P w.dag
      → walk_all ord visit xs w ≡ none
  unfolding walk_all contains
  walk_all_stuck visit [] each y stuck m w p = cc
  walk_all_stuck visit (x ∷ xs) each y stuck m w p = elim (each x w p) [
    | inl none_left ↦ rw (none_left, walk_all)
    | inr (t, went, pt) ↦ elim (Bool-cases (x == y)) [
      | inl same ↦
          let e : visit x w ≡ none = rw ((eq_iff x y).0 same) (stuck w p) in rw (e, walk_all)
      | inr other ↦ rw (went, walk_all) (walk_all_stuck visit xs each y stuck (ground arith) t pt)
    ]
  ]

  pub walk_all_rule :
      (visit : Str → Walk V → Option (Walk V))
      → ((x : Str) (w t : Walk V) → visit x w ≡ some t → P w.dag → P t.dag)
      → (xs : List Str) (w t : Walk V) → walk_all ord visit xs w ≡ some t
      → P w.dag
      → P t.dag
  unfolding walk_all
  walk_all_rule visit keep [] w t e p = ground arith
  walk_all_rule visit keep (x ∷ xs) w t e p = elim (Option-cases (visit x w)) [
    | inl stuck ↦ ground arith
    | inr (w', went) ↦
        walk_all_rule visit keep xs w' t (rw (went, walk_all) at e) (keep x w w' went p)
  ]

  pub trwalk_rule :
      (wc : WalkConfig V)
      → IsKept wc
      → (fuel : ℕ) (from : Str) (init : Bool) (depth : ℕ) (w t : Walk V)
      → trwalk ord wc fuel from init depth w ≡ some t
      → P w.dag
      → P t.dag
  unfolding trwalk
  trwalk_rule wc kept zero from init depth w t e p = cc
  trwalk_rule wc kept (suc fuel) from init depth w t e p =
      walk_all_rule (λ down. trwalk ord wc fuel down false (depth + 1))
        (λ x w' t' went. trwalk_rule wc kept fuel x false (depth + 1) w' t' went) _ _ t e
        (kept from init depth w p)

module _ {ℓ} {V : Type ℓ} (ord : Order) where
  pub walk_all-cons :
      (visit : Str → Walk V → Option (Walk V)) (x : Str) (xs : List Str) (w w' : Walk V)
      → visit x w ≡ some w'
      → walk_all ord visit (x ∷ xs) w ≡ walk_all ord visit xs w'
  unfolding walk_all
  walk_all-cons visit x xs w w' e = rw (e, walk_all)

  pub reduce_from_steps :
      (fuel : ℕ) (from : Str) (w w' : Walk V)
      → trwalk ord (depth_walk ord) fuel from true 1 w ≡ some w'
      → reduce_from ord fuel from w ≡ trwalk ord (reduce_walk ord) fuel from true 1 w'
  unfolding reduce_from
  reduce_from_steps fuel from w w' e = rw (e, reduce_from)

  pub reduce_from_stuck :
      (fuel : ℕ) (from : Str) (w : Walk V)
      → trwalk ord (depth_walk ord) fuel from true 1 w ≡ none
      → reduce_from ord fuel from w ≡ none
  unfolding reduce_from
  reduce_from_stuck fuel from w e = rw (e, reduce_from)
