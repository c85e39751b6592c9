-- ===== src/Package/Resolved.antt =====
-- pkg/syntax/types/package.go: what the checks of the dependencies promise.
use kform.Shared.{
  Assoc, Bool, List, Option-cases, Storer, Str, [], arith, eq_iff, false, first_part, has_key, inl,
  inr, none, not, some, str_eq, true, ◌&&◌, ◌==◌, ◌||◌, ◌∷◌, ◌≡◌,
}
use kform.Package.Blocks.{Block, has_count, has_for_each}
use kform.Package.Intake.{Package, dot}
use kform.Package.Listing.{
  key_each, key_loop_count, resolve_blocks, resolve_dag_dependencies, resolve_dependencies,
  resolve_dependency,
}
use kform.Package.Nodes.{Nodes}
use kform.Recorder.{
  Records, diag_errorf_with_context, has_error, has_error-append, unresolved_block,
  unresolved_count, unresolved_each,
}

module _ {ℓ κ} {N : Type ℓ} ⦃y : Nodes N⦄ {S : Type κ} ⦃st : Storer (Block N) S⦄ where
  -- A dependency that the block can follow: a loop variable of its own loop, or a block.
  unfoldable pub can_follow : Package N S → Block N → Str → Bool
  unfolding has_key
  can_follow p b d =
      (first_part dot d == key_each && has_for_each b)
      || ((first_part dot d == key_loop_count && has_count b)
          || (not (first_part dot d == key_each)
              && (not (first_part dot d == key_loop_count)
                  && elim (st.get_entry d p.blocks) [ none ↦ false | some _ ↦ true ])))

  -- Can every dependency of every block be followed?
  unfoldable pub all_follow : Package N S → Block N → List Str → Bool
  all_follow p b [] = true
  all_follow p b (d ∷ ds) = can_follow p b d && all_follow p b ds

  unfoldable pub all_blocks_follow : Package N S → Assoc Str (Block N) → Bool
  all_blocks_follow p [] = true
  all_blocks_follow p ((_, b) ∷ m) = all_follow p b b.dependencies && all_blocks_follow p m

  resolve_dependency-has_error :
      (p : Package N S) (c : Str) (b : Block N) (d : Str) (rs : Records)
      → has_error (resolve_dependency p c b d rs) ≡ (has_error rs || not (can_follow p b d))
  unfolding resolve_dependency can_follow has_error
  resolve_dependency-has_error p c b d rs = elim (Option-cases (st.get_entry d p.blocks)) [
    | inl e ↦ ground (
      arith,
      eq_iff (first_part dot d) key_each,
      eq_iff (first_part dot d) key_loop_count,
      has_error-append rs (diag_errorf_with_context c (unresolved_each d) ∷ []),
      has_error-append rs (diag_errorf_with_context c (unresolved_count d) ∷ []),
      has_error-append rs (diag_errorf_with_context c (unresolved_block d) ∷ []),
    )
    | inr (a, e) ↦ ground (
      arith,
      eq_iff (first_part dot d) key_each,
      eq_iff (first_part dot d) key_loop_count,
      has_error-append rs (diag_errorf_with_context c (unresolved_each d) ∷ []),
      has_error-append rs (diag_errorf_with_context c (unresolved_count d) ∷ []),
    )
  ]

  resolve_dependencies-has_error :
      (p : Package N S) (c : Str) (b : Block N) (ds : List Str) (rs : Records)
      → has_error (resolve_dependencies p c b ds rs) ≡ (has_error rs || not (all_follow p b ds))
  unfolding resolve_dependencies all_follow
  resolve_dependencies-has_error p c b [] rs = ground arith
  resolve_dependencies-has_error p c b (d ∷ ds) rs = ground (
    arith,
    resolve_dependency-has_error p c b d rs,
    resolve_dependencies-has_error p c b ds (resolve_dependency p c b d rs),
  )

  resolve_blocks-has_error :
      (text : Str → Block N → Str) (p : Package N S) (m : Assoc Str (Block N)) (rs : Records)
      → has_error (resolve_blocks text p m rs) ≡ (has_error rs || not (all_blocks_follow p m))
  unfolding resolve_blocks all_blocks_follow
  resolve_blocks-has_error text p [] rs = ground arith
  resolve_blocks-has_error text p ((name, b) ∷ m) rs = ground (
    arith,
    resolve_dependencies-has_error p (text name b) b b.dependencies rs,
    resolve_blocks-has_error text p m (resolve_dependencies p (text name b) b b.dependencies rs),
  )

  -- There is an error after the resolution exactly if there was one or some block has a dependency that it cannot follow:
  -- no loop variable of a loop of its own, and no block.
  pub resolve_dag_dependencies-has_error :
      (text : Str → Block N → Str) (p : Package N S) (rs : Records)
      → has_error (resolve_dag_dependencies text p rs)
        ≡ (has_error rs || not (all_blocks_follow p (st.list_entries p.blocks)))
  unfolding resolve_dag_dependencies
  resolve_dag_dependencies-has_error text p rs =
      resolve_blocks-has_error text p (st.list_entries p.blocks) rs
