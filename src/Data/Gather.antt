-- ===== src/Data/Gather.antt =====
-- pkg/data/vardata.go with pkg/exec/fn/fns/block_exec_handler.go: the results of the instances of a
-- block, stored in the order in which the instances end.
use kform.Shared.{
  All, Bool, Bool-cases, List, Option, Option-cases, Storer, Str, [], ap, arith, contains, eq_refl,
  get_elem?, get_elem?-set_ne, get_elem?-set_self, if◌then◌else◌, inl, inr, insert, length,
  length-replicate, length-set, list_beq, lookup, lookup-insert, nat_beq, nat_eq, none, refl,
  replicate, set, some, str_eq, subst, sym, true, ℕ, ◌<◌, ◌∙◌, ◌∷◌, ◌≡◌,
}
use kform.Data.Items.{Item, local_vars_of}
use kform.Data.VarData.{
  Outcome, VarData, dummy_key, fitting, insert_data, int_var, make_slice, or_empty, panicked, pos,
  returned, state_of, store_var, update_var_store, write_at,
}

module _ {ℓ} {A : Type ℓ} where
  -- The places of a call with this total: the old slice, if it has the right length.
  unfoldable pub places : ℕ → List (Option A) → List (Option A)
  places n slice = if nat_beq (length slice) n then slice else replicate n none

  length-places : (n : ℕ) (slice : List (Option A)) → length (places n slice) ≡ n
  unfolding places
  length-places n slice = ground (arith, length-replicate {A = Option A} n none)

  pub places-fitting : (n : ℕ) (slice : List (Option A)) → length slice ≡ n → places n slice ≡ slice
  unfolding places
  places-fitting n slice h = ground arith

  -- The places under a key; none if there is no such key.
  unfoldable pub slice_of : VarData A → List (Option A)
  slice_of r = elim (lookup dummy_key r) [ none ↦ [] | some slice ↦ slice ]

  fitting-places :
      (n i : ℕ) (r : VarData A)
      → i < n
      → fitting (pos n) (lookup dummy_key r) ≡ some (places n (slice_of r))
  unfolding fitting make_slice places slice_of
  fitting-places n i r below = elim (Option-cases (lookup dummy_key r)) [
    | inl e ↦ ground arith
    | inr (slice, e) ↦ ground arith
  ]

  -- `Insert` at a place below the total does not fail.
  pub insert_data-below :
      (n i : ℕ) (r : VarData A) (d : A)
      → i < n
      → insert_data r dummy_key (pos n) (pos i) d
        ≡ returned (insert dummy_key (set (places n (slice_of r)) i (some d)) r) none
  unfolding insert_data write_at
  insert_data-below n i r d below =
      ground (arith, fitting-places n i r below, length-places n (slice_of r))

  slice_of-insert : (xs : List (Option A)) (r : VarData A) → slice_of (insert dummy_key xs r) ≡ xs
  unfolding slice_of
  slice_of-insert xs r = ground (arith, lookup-insert dummy_key dummy_key xs r, eq_refl dummy_key)

-- How many places there are after the instances with these indices.
abbrev length_after : List ℕ → ℕ → ℕ → ℕ
length_after [] n before = before
length_after (_ ∷ _) n before = n

length_after_same : (is : List ℕ) (n : ℕ) → length_after is n n ≡ n
length_after_same [] n = refl
length_after_same (_ ∷ _) n = refl

module _ {ℓ κ} {A : Type ℓ} {S : Type κ} ⦃st : Storer (VarData A) S⦄ where
  -- The places of a block; none if there is no entry.
  unfoldable pub slice_at : Str → S → List (Option A)
  slice_at name s = slice_of (or_empty (st.get_entry name s))

  -- What one instance writes.
  pub store_var_lem :
      (name : Str) (d : A) (n i : ℕ) (s : S)
      → i < n
      → (s' : S) × (store_var s name d (pos n) (pos i) ≡ returned s' none)
        × (slice_at name s' ≡ set (places n (slice_at name s)) i (some d))
  unfolding store_var slice_at state_of
  store_var_lem name d n i s below =
      let f = λ (o : Option (VarData A)).
        state_of (or_empty o) (insert_data (or_empty o) dummy_key (pos n) (pos i) d) in
      let r = or_empty (st.get_entry name s) in
      let wrote = insert_data-below n i r d below in
      let got : st.get_entry name (st.update_with name f s) ≡ some (f (st.get_entry name s)) =
        ground (arith, st.get-update_with name name f s, eq_refl name) in
      (
        st.update_with name f s,
        ground (arith, wrote),
        ap (λ o. slice_of (or_empty o)) got
            ∙ (ap (λ o. slice_of (state_of r o)) wrote
                ∙ slice_of-insert (set (places n (slice_of r)) i (some d)) r),
      )

  module _ {μ} {B : Type μ} where
    update_var_store-below :
        (each : Bool) (name : Str) (d : A) (n i : ℕ) (item : Item B) (s : S)
        → i < n
        → update_var_store s name d (local_vars_of each n i item)
          ≡ store_var s name d (pos n) (pos i)
    unfolding update_var_store int_var local_vars_of lookup list_beq
    update_var_store-below each name d n i item s below = ground arith

    -- The instances with these indices end in this order, and each stores its result.
    unfoldable pub store_all : Bool → ℕ → Str → (ℕ → A) → (ℕ → Item B) → List ℕ → S → Outcome S
    unfolding update_var_store local_vars_of
    store_all each n name result item_of [] s = returned s none
    store_all each n name result item_of (i ∷ is) s =
        elim (update_var_store s name (result i) (local_vars_of each n i (item_of i))) [
          | panicked ↦ panicked
          | returned s' (some e) ↦ returned s' (some e)
          | returned s' none ↦ store_all each n name result item_of is s'
        ]

    store_all-places :
        (each : Bool) (n : ℕ) (name : Str) (result : ℕ → A) (item_of : ℕ → Item B) (is : List ℕ)
        (s : S)
        → All (λ i. i < n) is
        → (s' : S) × (store_all each n name result item_of is s ≡ returned s' none)
          × ((j : ℕ)
              → j < n
              → get_elem? (places n (slice_at name s')) j ≡ (
                  if contains is j
                  then some (some (result j))
                  else get_elem? (places n (slice_at name s)) j))
          × (length (slice_at name s') ≡ length_after is n (length (slice_at name s)))
    unfolding store_all contains
    store_all-places each n name result item_of [] s below = (s, refl, (λ j h. refl), refl)
    store_all-places each n name result item_of (i ∷ is) s below =
        let one = store_var_lem name (result i) n i s below.0 in
        let same = update_var_store-below each name (result i) n i (item_of i) s below.0 in
        let more = store_all-places each n name result item_of is one.0 below.1 in
        let sized : length (slice_at name one.0) ≡ n =
          ap length one.2
          ∙ (length-set (places n (slice_at name s)) i (some (result i))
              ∙ length-places n (slice_at name s)) in
        (
          more.0,
          ground (arith, same, one.1, more.1),
          (λ j h.
              let fitted = places-fitting n (slice_at name one.0) sized in
              let later = more.2 j h in
              let moved : get_elem? (places n (slice_at name one.0)) j
                  ≡ get_elem? (set (places n (slice_at name s)) i (some (result i))) j =
                ap (λ xs. get_elem? xs j) (fitted ∙ one.2) in
              elim (Bool-cases (nat_beq i j)) [
                | inl e ↦
                    let here : i ≡ j = ground arith in
                    let read : get_elem? (set (places n (slice_at name s)) i (some (result i))) j
                        ≡ some (some (result j)) =
                      subst
                        (λ x.
                          get_elem? (set (places n (slice_at name s)) i (some (result i))) x
                          ≡ some (some (result x)))
                        here
                        (get_elem?-set_self (places n (slice_at name s)) i (some (result i))
                          (ground (arith, length-places n (slice_at name s), below.0))) in
                    ground (arith, later, moved, read)
                | inr e ↦
                    let read =
                      get_elem?-set_ne (places n (slice_at name s)) i j (some (result i))
                        (ground arith) in
                    ground (arith, later, moved, read)
              ]),
          more.3 ∙ (ap (length_after is n) sized ∙ length_after_same is n),
        )

    -- With at least one instance, and whatever the order in which they end: once each of them has
    -- stored its result, some perhaps more than once, no call failed, there is one place for each
    -- instance, and it holds the instance's result.
    pub store_all_lem :
        (each : Bool) (n : ℕ) (name : Str) (result : ℕ → A) (item_of : ℕ → Item B) (is : List ℕ)
        (s : S)
        → 0 < n
        → All (λ i. i < n) is
        → ((i : ℕ) → i < n → contains is i ≡ true)
        → (s' : S) × (store_all each n name result item_of is s ≡ returned s' none)
          × (length (slice_at name s') ≡ n)
          × ((j : ℕ) → j < n → get_elem? (slice_at name s') j ≡ some (some (result j)))
    unfolding store_all contains
    store_all_lem each n name result item_of [] s some_there below all_there =
        absurd (let e = all_there 0 some_there in cc)
    store_all_lem each n name result item_of (i ∷ is) s some_there below all_there =
        let run_all = store_all-places each n name result item_of (i ∷ is) s below in
        (
          run_all.0,
          run_all.1,
          run_all.3,
          (λ j h.
              ap (λ xs. get_elem? xs j) (sym (places-fitting n (slice_at name run_all.0) run_all.3))
              ∙ (run_all.2 j h
                  ∙ ap
                      (λ b.
                        if b
                        then some (some (result j))
                        else get_elem? (places n (slice_at name s)) j)
                      (all_there j h))),
        )
