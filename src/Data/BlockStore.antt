-- ===== src/Data/BlockStore.antt =====
-- pkg/data/blockdata.go: the documents of a block, one place for each instance.
use kform.Shared.{
  Assoc, Bool, Bool-cases, Option, Storer, Str, [], arith, eq_iff, if◌then◌else◌, inl, inr, length,
  ltb, nat_beq, none, refl, replicate, set, some, str_eq, suc, true, ℕ, ◌&&◌, ◌-◌, ◌==◌, ◌↔◌, ◌∷◌,
  ◌≡◌,
}
use kform.Data.VarData.{
  Any, Outcome, index_not_below, index_not_int, int_geb, int_var, key_items_index, key_items_total,
  negsuc, out_of_bounds, panicked, pos, returned, state_of, total_not_int, ℤ,
}
use kform.Package.Nodes.{BlockData, Nodes}

module _ {ℓ} {N : Type ℓ} where
  -- `BlockData.Insert`; `nil` is the zero value of the pointer.
  unfoldable pub insert_node : N → BlockData N → ℤ → ℤ → N → Outcome (BlockData N)
  insert_node nil r (negsuc total) i rn = panicked
  insert_node nil r (pos total) (negsuc i) rn =
      returned (if nat_beq (length r) total then r else replicate total nil)
        (some (out_of_bounds (negsuc i) (pos total)))
  insert_node nil r (pos total) (pos i) rn =
      let r' = if nat_beq (length r) total then r else replicate total nil in
      if ltb (length r') i
      then returned r' (some (out_of_bounds (pos i) (pos total)))
      else if nat_beq i (length r')
      then panicked
      else returned (set r' i rn) none

module _ {ℓ} {N : Type ℓ} ⦃y : Nodes N⦄ where
  -- The same namespace and name.
  abbrev pub same_object : N → N → Bool
  same_object a b = y.node_namespace a == y.node_namespace b && y.node_name a == y.node_name b

  -- `BlockData.Delete`: the first document of the namespace and name.
  unfoldable pub delete_node : BlockData N → N → BlockData N
  delete_node [] n = []
  delete_node (rn ∷ r) n = let rest = delete_node r n in if same_object rn n then r else rn ∷ rest

  -- `BlockData.GetItem`
  unfoldable pub get_item : BlockData N → N → Option N
  get_item [] n = none
  get_item (rn ∷ r) n = let rest = get_item r n in if same_object rn n then some rn else rest

  -- How many documents have the namespace and name?
  unfoldable pub count_object : BlockData N → N → ℕ
  count_object [] n = 0
  count_object (rn ∷ r) n = if same_object rn n then suc (count_object r n) else count_object r n

  pub same_object-same : (a b c : N) → same_object a b ≡ true → same_object a c ≡ same_object b c
  same_object-same a b c h = ground (
    arith,
    eq_iff (y.node_namespace a) (y.node_namespace b),
    eq_iff (y.node_name a) (y.node_name b),
  )

  -- `Delete` takes away one document of the namespace and name, if there is one, and none of
  -- another.
  pub count-delete_node :
      (r : BlockData N) (n m : N)
      → count_object (delete_node r n) m
        ≡ (if same_object n m then count_object r m - 1 else count_object r m)
  unfolding delete_node count_object
  count-delete_node [] n m = ground arith
  count-delete_node (rn ∷ r) n m = elim (Bool-cases (same_object rn n)) [
    | inl e ↦ ground (arith, same_object-same rn n m e)
    | inr e ↦ elim (Bool-cases (same_object n m)) [
      | inl f ↦ elim (Bool-cases (same_object rn m)) [
        | inl g ↦ ground (
          arith,
          eq_iff (y.node_namespace n) (y.node_namespace m),
          eq_iff (y.node_namespace rn) (y.node_namespace m),
          eq_iff (y.node_namespace rn) (y.node_namespace n),
          eq_iff (y.node_name n) (y.node_name m),
          eq_iff (y.node_name rn) (y.node_name m),
          eq_iff (y.node_name rn) (y.node_name n),
        )
        | inr g ↦ ground (arith, count-delete_node r n m)
      ]
      | inr f ↦ ground (arith, count-delete_node r n m)
    ]
  ]

  pub count_object-same :
      (r : BlockData N) (n m : N) → same_object n m ≡ true → count_object r n ≡ count_object r m
  unfolding count_object
  count_object-same [] n m h = refl
  count_object-same (rn ∷ r) n m h = ground (
    arith,
    count_object-same r n m h,
    same_object-same n m rn h,
    eq_iff (y.node_namespace rn) (y.node_namespace n),
    eq_iff (y.node_namespace rn) (y.node_namespace m),
    eq_iff (y.node_namespace n) (y.node_namespace m),
    eq_iff (y.node_name rn) (y.node_name n),
    eq_iff (y.node_name rn) (y.node_name m),
    eq_iff (y.node_name n) (y.node_name m),
  )

  -- A document is found exactly if there is one.
  pub get_item-count : (r : BlockData N) (n : N) → (get_item r n ≡ none) ↔ (count_object r n ≡ 0)
  unfolding get_item count_object
  get_item-count [] n = ground arith
  get_item-count (rn ∷ r) n = ground (arith, get_item-count r n)

-- `if blockData == nil { blockData = BlockData{} }`
abbrev nodes_or_empty {ℓ} : {N : Type ℓ} → Option (BlockData N) → BlockData N
nodes_or_empty none = []
nodes_or_empty (some r) = r

-- The calls on the store; an error of `Insert` is joined to nothing, and lost.
module _ {ℓ κ} {N : Type ℓ} {S : Type κ} ⦃st : Storer (BlockData N) S⦄ where
  unfoldable pub store_node : N → S → Str → N → ℤ → ℤ → Outcome S
  unfolding insert_node state_of
  store_node nil s name rn total index =
      elim (insert_node nil (nodes_or_empty (st.get_entry name s)) total index rn) [
        | panicked ↦ panicked
        | returned _ _ ↦
            returned
              (st.update_with name
                (λ o.
                  state_of (nodes_or_empty o) (insert_node nil (nodes_or_empty o) total index rn))
                s)
              none
      ]

  unfoldable pub update_block_store_entry {μ} :
      {B : Type μ} → N → S → Str → N → Assoc Str (Any B) → Outcome S
  unfolding int_var store_node
  update_block_store_entry nil s name rn vars = elim (int_var key_items_total 1 vars) [
    | none ↦ returned s (some total_not_int)
    | some total ↦ elim (int_var key_items_index 0 vars) [
      | none ↦ returned s (some index_not_int)
      | some index ↦
          if int_geb index total
          then returned s (some (index_not_below index total))
          else store_node nil s name rn total index
    ]
  ]

  unfoldable pub delete_block_store_entry : ⦃y : Nodes N⦄ → S → Str → N → S
  unfolding delete_node
  delete_block_store_entry s name rn =
      st.update_with name (λ o. elim o [ none ↦ [] | some r ↦ delete_node r rn ]) s

  unfoldable pub get_block_store_entry : ⦃y : Nodes N⦄ → S → Str → N → Option N
  unfolding get_item
  get_block_store_entry s name rn = elim (st.get_entry name s) [
    | none ↦ none
    | some r ↦ get_item r rn
  ]
