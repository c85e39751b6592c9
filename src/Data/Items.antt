-- ===== src/Data/Items.antt =====
-- pkg/exec/fn/fns/block_exec_handler.go: how many instances of a block are run, and with what
-- local variables. The renderer of expressions is a parameter: what it returns is a `Rendered`.
use kform.Shared.{
  Assoc, Bool, List, Option, Result, Str, [], err, false, if◌then◌else◌, insert, length, nat_eq,
  none, not, ok, some, str, str_eq, suc, true, zero, ℕ, ◌+◌, ◌==◌, ◌∷◌,
}
use kform.Data.VarData.{Any, int, negsuc, other, pos, ℤ}
use kform.Package.Blocks.{Attributes}

-- What `RenderString` returns: the types that the code tells apart.
pub data Rendered {ℓ} (A : Type ℓ) : Type ℓ where
  list_value : List A → Rendered A
  -- the entries of a map, in the order of this range
  map_value : List (A × A) → Rendered A
  string_value : Str → A → Rendered A
  int_value : ℤ → A → Rendered A
  -- the integer part
  float_value : ℤ → A → Rendered A
  other_value : A → Rendered A
  -- an error that says "no such key" or "not found", and any other error
  not_found_error : Rendered A
  render_error : Rendered A

pub data LoopError : Type 0 where
  for_each_failed : LoopError
  count_failed : LoopError
  count_not_a_number : Str → LoopError
  count_unsupported : LoopError

-- A key or a value of an item: a number of the code's own, or a rendered value; `nil` is none.
pub data Loose {ℓ} (A : Type ℓ) : Type ℓ where
  number : ℕ → Loose A
  value : A → Loose A
  nil_part : Loose A

pub record Item {ℓ} (A : Type ℓ) : Type ℓ where
  pub item_key : Loose A
  pub item_val : Loose A

-- `map[any]item`: the code's keys are its own numbers.
abbrev pub Items {ℓ} : Type ℓ → Type ℓ
Items A = Assoc ℕ (Item A)

module _ {ℓ} {A : Type ℓ} where
  -- The loop of `initItems`, with `n` rounds left from `idx` on.
  unfoldable pub init_from : ℕ → ℕ → Items A → Items A
  init_from zero idx is = is
  init_from (suc n) idx is =
      init_from n (idx + 1)
        (insert idx (record { item_key = number idx; item_val = number idx }) is)

  unfoldable pub init_items : ℤ → Items A
  unfolding init_from
  init_items (pos n) = init_from n 0 []
  init_items (negsuc n) = []

  -- The loop over a list, from `idx` on.
  unfoldable pub add_values : ℕ → List A → Items A → Items A
  add_values idx [] is = is
  add_values idx (v ∷ vs) is =
      add_values (idx + 1) vs (insert idx (record { item_key = number idx; item_val = value v }) is)

  -- The loop over a map.
  unfoldable pub add_pairs : ℕ → List (A × A) → Items A → Items A
  add_pairs idx [] is = is
  add_pairs idx ((k, v) ∷ vs) is =
      add_pairs (idx + 1) vs (insert idx (record { item_key = value k; item_val = value v }) is)

  -- One value.
  abbrev pub single : Loose A → Items A → Items A
  single v is = insert 0 (record { item_key = number 0; item_val = v }) is

  unfoldable pub for_each_items : Rendered A → Result LoopError (Items A)
  unfolding add_values add_pairs init_items
  for_each_items (list_value vs) = ok (add_values 0 vs (init_items (pos 1)))
  for_each_items (map_value vs) = ok (add_pairs 0 vs (init_items (pos 1)))
  for_each_items (string_value s v) = ok (single (value v) (init_items (pos 1)))
  for_each_items (int_value i v) = ok (single (value v) (init_items (pos 1)))
  for_each_items (float_value i v) = ok (single (value v) (init_items (pos 1)))
  for_each_items (other_value v) = ok (single (value v) (init_items (pos 1)))
  for_each_items not_found_error = ok (single nil_part (init_items (pos 1)))
  for_each_items render_error = err for_each_failed

  -- `atoi` is `strconv.Atoi`.
  unfoldable pub count_items : (Str → Option ℤ) → Rendered A → Result LoopError (Items A)
  unfolding init_items
  count_items atoi (string_value s v) = elim (atoi s) [
    | none ↦ err (count_not_a_number s)
    | some c ↦ ok (init_items c)
  ]
  count_items atoi (int_value i v) = ok (init_items i)
  count_items atoi (float_value i v) = ok (init_items i)
  count_items atoi not_found_error = ok (init_items (pos 0))
  count_items atoi render_error = err count_failed
  count_items atoi _ = err count_unsupported

  -- `getLoopItems`: is it a for_each loop, and the items.
  unfoldable pub get_loop_items :
      (Str → Option ℤ) → (Str → Rendered A) → Option Attributes → Bool × Result LoopError (Items A)
  unfolding for_each_items count_items init_items
  get_loop_items atoi render none = (false, ok (init_items (pos 1)))
  get_loop_items atoi render (some attr) =
      if not (attr.for_each == [])
      then (true, for_each_items (render attr.for_each))
      else if not (attr.count == [])
      then (false, count_items atoi (render attr.count))
      else (false, ok (init_items (pos 1)))

  -- The local variables of an instance, as `runInstances` sets them.
  unfoldable pub local_vars_of : Bool → ℕ → ℕ → Item A → Assoc Str (Any (Loose A))
  local_vars_of is_for_each total idx item =
      (str "items.total", int (pos total))
      ∷ (str "items.index", int (pos idx))
      ∷ (if is_for_each
          then (str "each.key", other item.item_key) ∷ (str "each.value", other item.item_val) ∷ []
          else (str "count.index", other item.item_key) ∷ [])

  -- The instances that `runInstances` starts, in the order of this range.
  unfoldable pub instances_of : Bool → ℕ → Items A → List (ℕ × Assoc Str (Any (Loose A)))
  unfolding local_vars_of
  instances_of is_for_each total [] = []
  instances_of is_for_each total ((idx, item) ∷ is) =
      (idx, local_vars_of is_for_each total idx item) ∷ instances_of is_for_each total is

  module _ {κ} {E : Type κ} (fn : Assoc Str (Any (Loose A)) → Option E) where
    -- The errors of the instances, joined in the order in which they end.
    unfoldable pub errors_of : List (ℕ × Assoc Str (Any (Loose A))) → List E
    errors_of [] = []
    errors_of ((_, vars) ∷ is) =
        let rest = errors_of is in elim (fn vars) [ none ↦ rest | some e ↦ e ∷ rest ]

    -- `runInstances`: the function map is `fn`, which returns an error or none.
    unfoldable pub run_instances :
        (Str → Option ℤ) → (Str → Rendered A) → Option Attributes → Result LoopError (List E)
    unfolding get_loop_items instances_of errors_of
    run_instances atoi render attr =
        let r = get_loop_items atoi render attr in
        elim r.1 [ err e ↦ err e | ok is ↦ ok (errors_of (instances_of r.0 (length is) is)) ]

    -- `BlockRun`: the success of the block.
    unfoldable pub block_run : (Str → Option ℤ) → (Str → Rendered A) → Option Attributes → Bool
    unfolding run_instances
    block_run atoi render attr = elim (run_instances atoi render attr) [
      | err e ↦ false
      | ok es ↦ elim es [ [] ↦ true | _ ∷ _ ↦ false ]
    ]
