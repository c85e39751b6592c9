-- ===== src/Data/Counts.antt =====
-- pkg/exec/fn/fns/block_exec_handler.go: how many instances there are, and their indices.
use kform.Shared.{
  Assoc, Bool-cases, List, Option, Option-cases, Result, Str, [], arith, has_key, if◌then◌else◌,
  inl, inr, insert, leb, length, lookup, lookup-insert, ltb, nat_beq_iff, nat_eq, none, not, ok,
  ok-injective, refl, some, str_eq, subst, suc, zero, ℕ, ◌+◌, ◌==◌, ◌∷◌, ◌≡◌, ◌≤◌,
}
use kform.Data.Items.{
  Item, Items, LoopError, Loose, Rendered, add_pairs, add_values, count_items, float_value,
  for_each_items, get_loop_items, init_from, init_items, int_value, list_value, map_value, nil_part,
  not_found_error, number, other_value, render_error, single, string_value, value,
}
use kform.Data.VarData.{negsuc, pos, ℤ}
use kform.Package.Blocks.{Attributes}

-- The larger number.
abbrev pub max : ℕ → ℕ → ℕ
max a b = if leb a b then b else a

-- The number of items that the text of an attribute stands for.
unfoldable pub size_of : ℤ → ℕ
size_of (pos n) = n
size_of (negsuc n) = 0

-- The keys of the items are the numbers below `n`.
pub record IsDense {ℓ} {A : Type ℓ} (is : Items A) (n : ℕ) : Type 0 where
  pub many : length is ≡ n
  pub below : (j : ℕ) → has_key j is ≡ ltb j n

length-insert {ℓ} :
    {V : Type ℓ} (k : ℕ) (v : V) (m : Assoc ℕ V)
    → length (insert k v m) ≡ (if has_key k m then length m else suc (length m))
unfolding insert has_key lookup
length-insert k v [] = refl
length-insert k v ((j, w) ∷ m) = ground (arith, length-insert k v m)

module _ {ℓ} {A : Type ℓ} where
  insert-IsDense :
      (is : Items A) (n k : ℕ) (v : Item A)
      → IsDense is n
      → k ≤ n
      → IsDense (insert k v is) (if leb (k + 1) n then n else k + 1)
  unfolding has_key
  insert-IsDense is n k v h le = record {
    many = ground (arith, length-insert k v is, h.below k, h.many);
    below = λ j. ground (arith, lookup-insert k j v is, h.below j, nat_beq_iff k j);
  }

  init_from-IsDense :
      (n idx : ℕ) (is : Items A) → IsDense is idx → IsDense (init_from n idx is) (n + idx)
  unfolding init_from
  init_from-IsDense zero idx is h = subst (IsDense is) (omega arith) h
  init_from-IsDense (suc n) idx is h =
      subst
        (IsDense (
          init_from n (idx + 1)
            (insert idx (record { item_key = number idx; item_val = number idx }) is)))
        (omega arith)
        (init_from-IsDense n (idx + 1) _ (
          subst (IsDense _) (ground arith) (
            insert-IsDense is idx idx (record { item_key = number idx; item_val = number idx }) h
              (omega arith))))

  add_values-IsDense :
      (vs : List A) (idx : ℕ) (is : Items A) (n : ℕ)
      → IsDense is n
      → idx ≤ n
      → IsDense (add_values idx vs is) (max n (idx + length vs))
  unfolding add_values
  add_values-IsDense [] idx is n h le = subst (IsDense is) (ground arith) h
  add_values-IsDense (v ∷ vs) idx is n h le =
      let item : Item A = record { item_key = number idx; item_val = value v } in
      subst (IsDense (add_values (idx + 1) vs (insert idx item is))) (ground arith) (
        add_values-IsDense vs (idx + 1) (insert idx item is)
          (if leb (idx + 1) n then n else idx + 1) (insert-IsDense is n idx item h le)
          (ground arith))

  add_pairs-IsDense :
      (vs : List (A × A)) (idx : ℕ) (is : Items A) (n : ℕ)
      → IsDense is n
      → idx ≤ n
      → IsDense (add_pairs idx vs is) (max n (idx + length vs))
  unfolding add_pairs
  add_pairs-IsDense [] idx is n h le = subst (IsDense is) (ground arith) h
  add_pairs-IsDense ((k, v) ∷ vs) idx is n h le =
      let item : Item A = record { item_key = value k; item_val = value v } in
      subst (IsDense (add_pairs (idx + 1) vs (insert idx item is))) (ground arith) (
        add_pairs-IsDense vs (idx + 1) (insert idx item is) (if leb (idx + 1) n then n else idx + 1)
          (insert-IsDense is n idx item h le) (ground arith))

  -- The number of instances that the attributes ask for: one for each entry of the value of
  -- `for-each`, but at least one; as many as `count` says; or one.
  unfoldable pub for_each_size : Rendered A → ℕ
  for_each_size (list_value vs) = max 1 (length vs)
  for_each_size (map_value vs) = max 1 (length vs)
  for_each_size _ = 1

  unfoldable pub count_size : (Str → Option ℤ) → Rendered A → ℕ
  unfolding size_of
  count_size atoi (string_value s v) = elim (atoi s) [ none ↦ 0 | some c ↦ size_of c ]
  count_size atoi (int_value i v) = size_of i
  count_size atoi (float_value i v) = size_of i
  count_size atoi _ = 0

  unfoldable pub instance_count : (Str → Option ℤ) → (Str → Rendered A) → Option Attributes → ℕ
  unfolding for_each_size count_size
  instance_count atoi render none = 1
  instance_count atoi render (some attr) =
      if not (attr.for_each == [])
      then for_each_size (render attr.for_each)
      else if not (attr.count == [])
      then count_size atoi (render attr.count)
      else 1

  nothing-IsDense : IsDense {A = A} [] 0
  unfolding has_key lookup
  nothing-IsDense = record { many = refl; below = λ j. ground arith }

  init_items-IsDense : (c : ℤ) → IsDense {A = A} (init_items c) (size_of c)
  unfolding init_items size_of
  init_items-IsDense (pos n) =
      subst (IsDense _) (omega arith) (init_from-IsDense n 0 [] nothing-IsDense)
  init_items-IsDense (negsuc n) = nothing-IsDense

  one-IsDense : IsDense {A = A} (init_items (pos 1)) 1
  unfolding size_of
  one-IsDense = init_items-IsDense (pos 1)

  single-IsDense : (v : Loose A) → IsDense (single v (init_items (pos 1))) 1
  single-IsDense v =
      subst (IsDense _) (ground arith)
        (insert-IsDense (init_items (pos 1)) 1 0 _ one-IsDense (omega arith))

  resized : (is : Items A) (n m : ℕ) → IsDense is n → n ≡ m → IsDense is m
  resized is n m h e = subst (IsDense is) e h

  made-IsDense :
      (made is : Items A) (n : ℕ)
      → IsDense made n
      → ◌≡◌ {A = Result LoopError (Items A)} (ok made) (ok is)
      → IsDense is n
  made-IsDense made is n h e = subst (λ x. IsDense x n) (ok-injective e) h

  for_each_items-IsDense :
      (r : Rendered A) (is : Items A) → for_each_items r ≡ ok is → IsDense is (for_each_size r)
  unfolding for_each_items for_each_size
  for_each_items-IsDense (list_value vs) is e =
      made-IsDense _ is (max 1 (length vs))
        (resized _ (max 1 (0 + length vs)) (max 1 (length vs))
          (add_values-IsDense vs 0 (init_items (pos 1)) 1 one-IsDense (omega arith)) (ground arith))
        e
  for_each_items-IsDense (map_value vs) is e =
      made-IsDense _ is (max 1 (length vs))
        (resized _ (max 1 (0 + length vs)) (max 1 (length vs))
          (add_pairs-IsDense vs 0 (init_items (pos 1)) 1 one-IsDense (omega arith)) (ground arith))
        e
  for_each_items-IsDense (string_value s v) is e = made-IsDense _ is 1 (single-IsDense (value v)) e
  for_each_items-IsDense (int_value i v) is e = made-IsDense _ is 1 (single-IsDense (value v)) e
  for_each_items-IsDense (float_value i v) is e = made-IsDense _ is 1 (single-IsDense (value v)) e
  for_each_items-IsDense (other_value v) is e = made-IsDense _ is 1 (single-IsDense (value v)) e
  for_each_items-IsDense not_found_error is e = made-IsDense _ is 1 (single-IsDense nil_part) e
  for_each_items-IsDense render_error is e = cc

  count_items-IsDense :
      (atoi : Str → Option ℤ) (r : Rendered A) (is : Items A)
      → count_items atoi r ≡ ok is
      → IsDense is (count_size atoi r)
  unfolding count_items count_size
  count_items-IsDense atoi (string_value s v) is e = elim (Option-cases (atoi s)) [
    | inl f ↦ cc
    | inr (c, f) ↦
        resized is (size_of c) (count_size atoi (string_value s v))
          (made-IsDense (init_items c) is (size_of c) (init_items-IsDense c) (ground arith))
          (ground arith)
  ]
  count_items-IsDense atoi (int_value i v) is e =
      made-IsDense _ is (size_of i) (init_items-IsDense i) e
  count_items-IsDense atoi (float_value i v) is e =
      made-IsDense _ is (size_of i) (init_items-IsDense i) e
  count_items-IsDense atoi not_found_error is e = made-IsDense _ is 0 (init_items-IsDense (pos 0)) e
  count_items-IsDense atoi render_error is e = cc
  count_items-IsDense atoi (list_value vs) is e = cc
  count_items-IsDense atoi (map_value vs) is e = cc
  count_items-IsDense atoi (other_value v) is e = cc

  -- When the items of a block are made, their keys are the numbers below the number of instances
  -- that the attributes ask for.
  pub get_loop_items-IsDense :
      (atoi : Str → Option ℤ) (render : Str → Rendered A) (attr : Option Attributes) (is : Items A)
      → (get_loop_items atoi render attr).1 ≡ ok is
      → IsDense is (instance_count atoi render attr)
  unfolding get_loop_items instance_count
  get_loop_items-IsDense atoi render none is e = made-IsDense _ is 1 one-IsDense e
  get_loop_items-IsDense atoi render (some attr) is e = elim (Bool-cases (attr.for_each == [])) [
    | inr each ↦ rw each (for_each_items-IsDense (render attr.for_each) is (ground arith))
    | inl no_each ↦ elim (Bool-cases (attr.count == [])) [
      | inr counted ↦
          rw (no_each, counted) (count_items-IsDense atoi (render attr.count) is (ground arith))
      | inl no_count ↦
          rw (no_each, no_count) (made-IsDense (init_items (pos 1)) is 1 one-IsDense (ground arith))
    ]
  ]
