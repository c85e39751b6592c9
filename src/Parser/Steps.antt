-- ===== src/Parser/Steps.antt =====
-- Every step of a goroutine of pkgparser/validator.go keeps the names that are there.
use mathlib.Core.Option.{some-injective}
use kform.Shared.{
  Bool-cases, Option, Option-cases, Storer, Str, [], arith, eq_iff, eq_refl, inl, inr, none, refl,
  some, str_eq, subst, sym, true, ◌++◌, ◌==◌, ◌∙◌, ◌∷◌, ◌≡◌, ◌⊎◌,
}
use kform.Package.BlockTypes.{BlockType, data_block, input, list_block, resource}
use kform.Package.Blocks.{Block, Ctx, add_data, new_block}
use kform.Package.Growth.{
  Louder, create_block-Grows, error_recorded, list_duplicate-Louder, record_diag-Louder,
}
use kform.Package.Intake.{
  Intake, Package, append_data, create_block, duplicate, on_blocks, on_configs, with_package,
}
use kform.Package.Nodes.{Nodes}
use kform.Package.Update.{list_duplicate}
use kform.Parser.Placed.{
  HasPlace, IsFine, IsGood, IsThere, Keeps, Keeps-records, KeepsNames, Settled, look-IsGood,
  note_diag-IsGood, origin,
}
use kform.Parser.Tasks.{
  Place, Worker, act_on, at_end, create_at, entry_at, place_of, refused, step_task, store_data,
  takes_more, target_name, the_backend, the_blocks, the_configs, to_act, to_look, to_store,
  with_kind,
}
use kform.Recorder.{
  Records, block_without_node, diag_from_err, diag_from_err_with_context, has_error, is_error,
  without_package,
}

takes_more-place : (k : BlockType) → takes_more k ≡ true → place_of k ≡ the_blocks
unfolding takes_more place_of
takes_more-place input h = refl
takes_more-place resource h = refl
takes_more-place data_block h = refl
takes_more-place list_block h = refl
takes_more-place _ h = absurd (let g = h in cc)

module _ {ℓ} {N : Type ℓ} ⦃y : Nodes N⦄ where
  refused-is_error : (pl : Place) (c : Ctx N) (b : Block N) → is_error (refused pl c b) ≡ true
  unfolding refused duplicate
  refused-is_error the_blocks c b = refl
  refused-is_error the_configs c b = refl
  refused-is_error the_backend c b = refl

module _ {ℓ κ} {N : Type ℓ} {S : Type κ} ⦃y : Nodes N⦄ ⦃st : Storer (Block N) S⦄ where
  -- What a change of the package keeps.
  abbrev pub IsKeeping : (Package N S → Records → Package N S × Records) → Type (ℓ ⊔ κ)
  IsKeeping f =
      (p : Package N S) (rs : Records) → KeepsNames p ((f p rs).0) × Louder rs ((f p rs).1)

  with_package-Keeps :
      (c : Ctx N) (o : Option (Package N S)) (rs : Records)
      (f : Package N S → Records → Package N S × Records)
      → IsKeeping f
      → Keeps
          (record { pkg = o; records = rs })
          (with_package c (record { pkg = o; records = rs }) f)
  unfolding with_package
  with_package-Keeps c none rs f h = record {
    louder =
        λ e. error_recorded (diag_from_err_with_context (c.context_text) without_package) rs refl;
    pkg_kept = λ p e. cc;
  }
  with_package-Keeps c (some q) rs f h = record {
    louder = (h q rs).1;
    pkg_kept = λ p e. (
      (f q rs).0,
      refl,
      subst (λ x. KeepsNames x ((f q rs).0)) (some-injective q p e) ((h q rs).0),
    );
  }

  with_package-Settled :
      (c d : Ctx N) (o : Option (Package N S)) (rs : Records)
      (f : Package N S → Records → Package N S × Records)
      → ((p : Package N S) → (has_error ((f p rs).1) ≡ true) ⊎ HasPlace d ((f p rs).0))
      → Settled d (with_package c (record { pkg = o; records = rs }) f)
  unfolding with_package
  with_package-Settled c d none rs f h =
      inl (error_recorded (diag_from_err_with_context (c.context_text) without_package) rs refl)
  with_package-Settled c d (some q) rs f h = elim (h q) [
    | inl e ↦ inl e
    | inr there ↦ inr ((f q rs).0, refl, there)
  ]

  create_block-IsThere :
      (c : Ctx N) (name : Str) (s : S) (rs : Records)
      → IsThere (st.get_entry name ((create_block c name s rs).0))
  unfolding create_block
  create_block-IsThere c name s rs = elim (Option-cases (st.get_entry name s)) [
    | inl free ↦
        let made = st.create-free name (new_block c name) s free in
        (new_block c name, ground (arith, made.1, made.2 name, eq_iff name name))
    | inr (b, e) ↦ (b, ground (arith, st.create-taken name (new_block c name) b s e))
  ]

  -- The names of each store are kept.
  pub KeepsNames-parts :
      (p p' : Package N S)
      → p'.is_mixin ≡ p.is_mixin
      → ((j : Str) (b : Block N)
          → st.get_entry j (p.blocks) ≡ some b
          → IsThere (st.get_entry j (p'.blocks)))
      → ((j : Str) (b : Block N)
          → st.get_entry j (p.provider_configs) ≡ some b
          → IsThere (st.get_entry j (p'.provider_configs)))
      → ((b : Block N) → p.pkg_backend ≡ some b → IsThere (p'.pkg_backend))
      → KeepsNames p p'
  unfolding entry_at
  KeepsNames-parts p p' m f g h = record { mixin_kept = m; entries_kept = entries }
    where
      entries :
          (pl : Place) (name : Str) (b : Block N)
          → entry_at pl name p ≡ some b
          → IsThere (entry_at pl name p')
      entries the_blocks name b e = f name b e
      entries the_configs name b e = g name b e
      entries the_backend name b e = h b e

  create_at-KeepsNames :
      (pl : Place) (c : Ctx N) (name : Str) (p : Package N S) (rs : Records)
      → let r = create_at pl c name p rs in
        KeepsNames p (r.0) × Louder rs (r.1) × IsThere (entry_at pl name (r.0))
  unfolding create_at on_blocks on_configs entry_at
  create_at-KeepsNames the_blocks c name p rs =
      let g = create_block-Grows c name (p.blocks) rs in
      (
        KeepsNames-parts p _ refl (λ j b h. let r = g.0 j b h in (r.0, r.1)) (λ j b h. (b, h))
            (λ b h. (b, h)),
        g.1,
        create_block-IsThere c name (p.blocks) rs,
      )
  create_at-KeepsNames the_configs c name p rs =
      let g = create_block-Grows c name (p.provider_configs) rs in
      (
        KeepsNames-parts p _ refl (λ j b h. (b, h)) (λ j b h. let r = g.0 j b h in (r.0, r.1))
            (λ b h. (b, h)),
        g.1,
        create_block-IsThere c name (p.provider_configs) rs,
      )
  create_at-KeepsNames the_backend c name p rs =
      let g = create_block-Grows c name (p.blocks) rs in
      (
        KeepsNames-parts p _ refl (λ j b h. let r = g.0 j b h in (r.0, r.1)) (λ j b h. (b, h))
            (λ b h. (new_block c name, refl)),
        g.1,
        (new_block c name, refl),
      )

  -- The data of a block may be lost when it is stored, but no name is.
  append_data-Louder :
      (c : Ctx N) (name : Str) (b : Block N) (s : S) (rs : Records)
      → let r = append_data c name b s rs in
        ((j : Str) (a : Block N) → st.get_entry j s ≡ some a → IsThere (st.get_entry j (r.0)))
        × Louder rs (r.1)
        × ((has_error (r.1) ≡ true) ⊎ IsThere (st.get_entry name (r.0)))
  unfolding append_data add_data
  append_data-Louder c name b s rs =
      let b' : Block N = record b { block_data = b.block_data ++ c.node ∷ [] } in
      elim (Bool-cases (y.is_nil c.node)) [
        | inl e ↦
            let d = diag_from_err block_without_node in
            rw (e, append_data, add_data)
              (λ j a h. (a, h), record_diag-Louder d rs, inl (error_recorded d rs refl))
        | inr e ↦
            rw (e, append_data, add_data)
              (
                λ j a h. elim (Bool-cases (name == j)) [
                  | inl same ↦ (b', st.get-update name j b' s ∙ rw same refl)
                  | inr apart ↦ (a, st.get-update name j b' s ∙ rw apart h)
                ],
                λ h. h,
                inr (b', st.get-update name name b' s ∙ rw (eq_refl name) refl),
              )
      ]

  act_on-IsGood :
      (c : Ctx N) (seen : Option (Block N)) (t : Intake N S) → IsGood c t (act_on c seen t)
  unfolding act_on
  act_on-IsGood c none t =
      let k = (with_kind c).ctx_block_type in
      let f = create_at (place_of k) (with_kind c) (target_name k (with_kind c)) in
      let good = create_at-KeepsNames (place_of k) (with_kind c) (target_name k (with_kind c)) in
      (
        with_package-Keeps (with_kind c) (t.pkg) (t.records) f
            (λ p rs. ((good p rs).0, (good p rs).1)),
        with_package-Settled (with_kind c) c (t.pkg) (t.records) f
            (λ p. inr ((good p (t.records)).2)),
        refl,
      )
  act_on-IsGood c (some b) t =
      let k = (with_kind c).ctx_block_type in
      elim (Bool-cases (takes_more k)) [
        | inl e ↦
            rw (act_on, e)
              (
                Keeps-records t (list_duplicate k (with_kind c) b (t.records))
                    (list_duplicate-Louder k (with_kind c) b (t.records)),
                (tt, e),
                refl,
              )
        | inr e ↦
            rw (act_on, e)
              (note_diag-IsGood c (refused (place_of k) (with_kind c) b) t t
                (refused-is_error (place_of k) (with_kind c) b)
                (Keeps-records t (t.records) (λ h. h)))
      ]

  store_data-IsGood :
      (c : Ctx N) (b : Block N) (t : Intake N S)
      → takes_more ((with_kind c).ctx_block_type) ≡ true
      → IsGood c t (store_data c b t)
  unfolding store_data on_blocks entry_at
  store_data-IsGood c b t more =
      let k = (with_kind c).ctx_block_type in
      let name = target_name k (with_kind c) in
      let f = on_blocks (append_data (with_kind c) name b) in
      (
        with_package-Keeps (with_kind c) (t.pkg) (t.records) f (λ p rs.
            let g = append_data-Louder (with_kind c) name b (p.blocks) rs in
            (KeepsNames-parts p _ refl (g.0) (λ j a h. (a, h)) (λ a h. (a, h)), g.1)),
        with_package-Settled (with_kind c) c (t.pkg) (t.records) f (λ p.
            elim (append_data-Louder (with_kind c) name b (p.blocks) (t.records)).2 [
              | inl e ↦ inl e
              | inr there ↦ inr (
                  subst (λ pl. IsThere (entry_at pl name ((f p (t.records)).0)))
                    (sym (takes_more-place k more)) there)
            ]),
        refl,
      )

  pub step_task-IsGood :
      (a : Worker N) (t : Intake N S) → IsFine a t → IsGood (origin a) t (step_task a t)
  unfolding step_task
  step_task-IsGood (to_look c) t h = look-IsGood c t
  step_task-IsGood (to_act c seen) t h = act_on-IsGood c seen t
  step_task-IsGood (to_store c b) t h = store_data-IsGood c b t h.1
  step_task-IsGood (at_end c) t h = (Keeps-records t (t.records) (λ e. e), h, refl)
