-- ===== src/Data/VarData.antt =====
-- pkg/data/vardata.go: the results of a block, one place for each instance.
use kform.Shared.{
  Assoc, Bool, List, Option, Storer, Str, [], false, if◌then◌else◌, insert, leb, length, lookup,
  ltb, nat_beq, none, replicate, set, some, str, str_eq, true, ℕ,
}

pub data ℤ : Type 0 where
  pos : ℕ → ℤ
  negsuc : ℕ → ℤ

-- A value of type `any`: an `int`, or a value of another type.
pub data Any {ℓ} (A : Type ℓ) : Type ℓ where
  int : ℤ → Any A
  other : A → Any A

pub data DataError : Type 0 where
  out_of_bounds : ℤ → ℤ → DataError
  total_not_int : DataError
  index_not_int : DataError
  index_not_below : ℤ → ℤ → DataError

-- A call returns the new state and an error, or it panics.
pub data Outcome {ℓ} (S : Type ℓ) : Type ℓ where
  returned : S → Option DataError → Outcome S
  panicked : Outcome S

abbrev pub dummy_key : Str
dummy_key = str "BamBoozle"

abbrev pub key_items_total : Str
key_items_total = str "items.total"

abbrev pub key_items_index : Str
key_items_index = str "items.index"

-- `len(slice) == total`
abbrev pub has_length : ℕ → ℤ → Bool
has_length n (pos m) = nat_beq n m
has_length n (negsuc m) = false

-- `a >= b`
abbrev pub int_geb : ℤ → ℤ → Bool
int_geb (pos a) (pos b) = leb b a
int_geb (pos a) (negsuc b) = true
int_geb (negsuc a) (pos b) = false
int_geb (negsuc a) (negsuc b) = leb a b

module _ {ℓ} {A : Type ℓ} where
  -- `make([]any, total)`: a panic for a negative length, `nil` in every place.
  unfoldable pub make_slice : ℤ → Option (List (Option A))
  make_slice (pos n) = some (replicate n none)
  make_slice (negsuc n) = none

  -- The slice that `Insert` writes to: the old one if it has the right length.
  unfoldable pub fitting : ℤ → Option (List (Option A)) → Option (List (Option A))
  unfolding make_slice
  fitting total none = make_slice total
  fitting total (some slice) =
      if has_length (length slice) total then some slice else make_slice total

-- The state after a call; a callback that panics leaves the store as it is.
unfoldable pub state_of {ℓ} : {T : Type ℓ} → T → Outcome T → T
state_of before (returned after _) = after
state_of before panicked = before

-- `localVars[key]`, with a default for a missing one.
unfoldable pub int_var {ℓ} : {A : Type ℓ} → Str → ℕ → Assoc Str (Any A) → Option ℤ
int_var key default vars = elim (lookup key vars) [
  | none ↦ some (pos default)
  | some (int i) ↦ some i
  | some (other _) ↦ none
]

-- `map[string][]any`
abbrev pub VarData {ℓ} : Type ℓ → Type ℓ
VarData A = Assoc Str (List (Option A))

module _ {ℓ} {A : Type ℓ} where
  -- The write at a position; Go panics at the length, which the guard lets pass.
  unfoldable pub write_at : VarData A → Str → ℤ → List (Option A) → ℤ → A → Outcome (VarData A)
  write_at r key total slice (negsuc i) d =
      returned (insert key slice r) (some (out_of_bounds (negsuc i) total))
  write_at r key total slice (pos i) d =
      if ltb (length slice) i
      then returned (insert key slice r) (some (out_of_bounds (pos i) total))
      else if nat_beq i (length slice)
      then panicked
      else returned (insert key (set slice i (some d)) r) none

  -- `VarData.Insert`
  unfoldable pub insert_data : VarData A → Str → ℤ → ℤ → A → Outcome (VarData A)
  unfolding fitting write_at
  insert_data r key total i d = elim (fitting total (lookup key r)) [
    | none ↦ panicked
    | some slice ↦ write_at r key total slice i d
  ]

  -- `if varData == nil { varData = VarData{} }`
  abbrev pub or_empty : Option (VarData A) → VarData A
  or_empty none = []
  or_empty (some r) = r

  module _ {κ} {S : Type κ} ⦃st : Storer (VarData A) S⦄ where
    -- The call of `UpdateWithKeyFn`. An error of `Insert` is joined to nothing, and lost.
    unfoldable pub store_var : S → Str → A → ℤ → ℤ → Outcome S
    unfolding insert_data state_of
    store_var s name d total index =
        elim (insert_data (or_empty (st.get_entry name s)) dummy_key total index d) [
          | panicked ↦ panicked
          | returned _ _ ↦
              returned
                (st.update_with name
                  (λ o. state_of (or_empty o) (insert_data (or_empty o) dummy_key total index d)) s)
                none
        ]

    unfoldable pub update_var_store {μ} : {B : Type μ} → S → Str → A → Assoc Str (Any B) → Outcome S
    unfolding int_var store_var
    update_var_store s name d vars = elim (int_var key_items_total 1 vars) [
      | none ↦ returned s (some total_not_int)
      | some total ↦ elim (int_var key_items_index 0 vars) [
        | none ↦ returned s (some index_not_int)
        | some index ↦
            if int_geb index total
            then returned s (some (index_not_below index total))
            else store_var s name d total index
      ]
    ]
