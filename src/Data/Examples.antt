-- ===== src/Data/Examples.antt =====
-- Tests and examples for the results of a block and for its instances.
use kform.Shared.{
  Assoc, List, Option, Storer, Str, [], arith, assoc_store, contains, false, get_elem?,
  if◌then◌else◌, insert, length, list_beq, lookup, nat_eq, none, ok, refl, some, str, str_eq, true,
  ℕ, ◌+◌, ◌-◌, ◌<◌, ◌∷◌, ◌≡◌,
}
use kform.Data.BlockStore.{count-delete_node, count_object, delete_node, same_object}
use kform.Data.Counts.{IsDense, get_loop_items-IsDense, instance_count}
use kform.Data.Gather.{slice_at, store_all, store_all_lem}
use kform.Data.Items.{
  Item, Items, add_values, for_each_items, get_loop_items, init_from, init_items, list_value,
  number, value,
}
use kform.Data.VarData.{
  Any, VarData, dummy_key, fitting, insert_data, int, int_var, key_items_index, make_slice, negsuc,
  returned, state_of, store_var, update_var_store, write_at, ℤ,
}
use kform.Package.Blocks.{Attributes}
use kform.Package.Nodes.{Nodes}

abbrev Vars : Type 0
Vars = Assoc Str (VarData ℕ)

instance abbrev vars_store : Storer (VarData ℕ) Vars
vars_store = assoc_store (VarData ℕ)

abbrev plain_item : ℕ → Item ℕ
plain_item i = record { item_key = number i; item_val = number i }

abbrev results : ℕ → ℕ
results i = i + 10

-- Three instances end in the order 2, 0, 1.
abbrev ends : List ℕ
ends = 2 ∷ 0 ∷ 1 ∷ []

ends_all : (i : ℕ) → i < 3 → contains ends i ≡ true
unfolding contains
ends_all i h = ground arith

store_all_example :
    (s' : Vars) × (store_all false 3 (str "x") results plain_item ends [] ≡ returned s' none)
    × (length (slice_at ⦃st = vars_store⦄ (str "x") s') ≡ 3)
    × ((j : ℕ)
        → j < 3
        → get_elem? (slice_at ⦃st = vars_store⦄ (str "x") s') j ≡ some (some (results j)))
store_all_example =
    store_all_lem false 3 (str "x") results plain_item ends [] (omega arith)
      (omega arith, (omega arith, (omega arith, tt))) ends_all

abbrev negative_index : Assoc Str (Any ℕ)
negative_index = (key_items_index, int (negsuc 0)) ∷ []

-- An index below zero is an error of `Insert`, and the caller is told nothing.
negative_lost :
    update_var_store ⦃st = vars_store⦄ [] (str "x") 7 negative_index
    ≡ returned ((str "x", (dummy_key, none ∷ []) ∷ []) ∷ []) none
unfolding update_var_store int_var store_var insert_data fitting make_slice write_at state_of lookup
    insert list_beq
negative_lost = refl

abbrev looping : Str → Attributes
looping text = record {
  api_version = [];
  kind = [];
  resource_type = [];
  resource_id = [];
  count = [];
  for_each = text;
  depends_on = [];
  provider_name = [];
  description = [];
  sensitive = false;
  life_cycle = [];
  pre_condition = [];
  post_condition = [];
  provisioner = [];
  organization = [];
  source = [];
  alias = [];
  host_name = [];
}

abbrev three_items : Items ℕ
three_items =
    (0, record { item_key = number 0; item_val = value 5 })
    ∷ (1, record { item_key = number 1; item_val = value 6 })
    ∷ (2, record { item_key = number 2; item_val = value 7 })
    ∷ []

abbrev no_number : Str → Option ℤ
no_number s = none

get_loop_items_example : IsDense three_items (
    instance_count {A = ℕ} no_number (λ e. list_value (5 ∷ 6 ∷ 7 ∷ [])) (some (looping (str "xs"))))
unfolding get_loop_items for_each_items add_values init_items init_from insert list_beq
get_loop_items_example =
    get_loop_items-IsDense no_number (λ e. list_value (5 ∷ 6 ∷ 7 ∷ [])) (some (looping (str "xs")))
      three_items refl

-- For an empty list there is one instance all the same, with the item of a block without a loop.
empty_runs_once :
    get_loop_items {A = ℕ} no_number (λ e. list_value []) (some (looping (str "xs")))
    ≡ (true, ok ((0, record { item_key = number 0; item_val = number 0 }) ∷ []))
unfolding get_loop_items for_each_items add_values init_items init_from insert list_beq
empty_runs_once = refl

instance abbrev named : Nodes Str
named = record {
  is_nil = λ d. false;
  copy = λ d. d;
  annotations = λ d. [];
  node_name = λ d. d;
  node_namespace = λ d. [];
  node_api_version = λ d. [];
  node_kind = λ d. [];
  annotations-copy = λ d. refl;
}

delete_node_example : count_object (delete_node (str "a" ∷ str "b" ∷ []) (str "a")) (str "a") ≡ (
    if same_object (str "a") (str "a")
    then count_object (str "a" ∷ str "b" ∷ []) (str "a") - 1
    else count_object (str "a" ∷ str "b" ∷ []) (str "a"))
delete_node_example = count-delete_node (str "a" ∷ str "b" ∷ []) (str "a") (str "a")
