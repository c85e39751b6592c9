-- ===== src/Package/Handlers.antt =====
-- pkg/syntax/types/bt_*.go and block_types.go: the handlers of all kinds of block.
use mathlib.Core.Option.{some-injective}
use kform.Shared.{Option, Option-cases, Storer, inl, inr, none, refl, some, subst, ◌∙◌, ◌≡◌}
use kform.Package.BlockTypes.{
  BlockType, backend, data_block, input, list_block, local, output, package_block, provider,
  required_providers, resource, root_block, type_name, unknown,
}
use kform.Package.Blocks.{Block, Ctx}
use kform.Package.Growth.{
  Handled, IsKept_refl, IsUnharmed, Louder, PackagePart, backend_block-IsUnharmed,
  create_once-Grows, error_recorded, input_block-Grows, on_blocks-IsUnharmed, on_configs-IsUnharmed,
  resource_block-Grows,
}
use kform.Package.Intake.{
  Intake, Package, backend_annotations, block_name_of, checked, dotted, input_annotations,
  local_annotations, mixin_annotations, name_of, on_blocks, output_annotations, output_name_of,
  provider_annotations, resource_annotations, resource_name_of, resource_type_of, with_package,
}
use kform.Package.Nodes.{Nodes}
use kform.Package.Update.{
  backend_update, initialize_block, input_update, local_update, mixin_update, output_update,
  provider_update, resource_block, resource_update,
}
use kform.Package.Validator.{
  Expected, validate_annotations, validate_annotations-has_error, validate_resource_syntax,
}
use kform.Recorder.{Records, diag_from_err_with_context, without_package}

module _ {ℓ κ} {N : Type ℓ} {S : Type κ} (st : Storer (Block N) S) where
  -- If there is a handler, it keeps what there is.
  abbrev Sound : Option (Ctx N → Intake N S → Intake N S) → Ctx N → Intake N S → Type (ℓ ⊔ κ)
  Sound none c t = Unit
  Sound (some f) c t = Handled st t (f c t)

module _ {ℓ κ} {N : Type ℓ} ⦃y : Nodes N⦄ {S : Type κ} ⦃st : Storer (Block N) S⦄ where
  with_package-none :
      (c : Ctx N) (rs rs0 : Records) (f : Package N S → Records → Package N S × Records)
      → Handled st
          (record { pkg = none; records = rs0 })
          (with_package c (record { pkg = none; records = rs }) f)
  unfolding with_package
  with_package-none c rs rs0 f =
      let no_pkg = diag_from_err_with_context c.context_text without_package in
      record {
        package_kept = λ p h. cc;
        without = λ h. (refl, error_recorded no_pkg rs refl);
        errors_kept = λ h. error_recorded no_pkg rs refl;
      }

  with_package-some :
      (c : Ctx N) (q : Package N S) (rs rs0 : Records)
      (f : Package N S → Records → Package N S × Records)
      → PackagePart st f
      → Louder rs0 rs
      → Handled st
          (record { pkg = some q; records = rs0 })
          (with_package c (record { pkg = some q; records = rs }) f)
  unfolding with_package
  with_package-some c q rs rs0 f part loud = record {
    package_kept = λ p h. (
      (f q rs).0,
      refl,
      subst (λ x. IsUnharmed st x ((f q rs).0)) (some-injective q p h) ((part q rs).0),
    );
    without = λ h. cc;
    errors_kept = λ h. (part q rs).1 (loud h);
  }

  handle :
      (c : Ctx N) (o : Option (Package N S)) (rs rs0 : Records)
      (f : Package N S → Records → Package N S × Records)
      → PackagePart st f
      → Louder rs0 rs
      → Handled st
          (record { pkg = o; records = rs0 })
          (with_package c (record { pkg = o; records = rs }) f)
  handle c none rs rs0 f part loud = with_package-none c rs rs0 f
  handle c (some q) rs rs0 f part loud = with_package-some c q rs rs0 f part loud

  with_package-Handled :
      (expected : Expected) (c : Ctx N) (t : Intake N S)
      (f : Package N S → Records → Package N S × Records)
      → PackagePart st f
      → Handled st t (with_package c (checked expected c t) f)
  with_package-Handled expected c t f part =
      handle c t.pkg (validate_annotations expected c t.records) t.records f part
        (λ h. validate_annotations-has_error expected c t.records ∙ h)

  -- The resource handler may stop at the syntax of the type.
  resource_update-Handled : (c : Ctx N) (t : Intake N S) → Handled st t (resource_update c t)
  unfolding resource_update
  resource_update-Handled c t =
      elim (Option-cases (validate_resource_syntax (resource_type_of c))) [
        | inl e ↦
            rw (resource_update, e)
              (with_package-Handled resource_annotations c t
                (on_blocks (resource_block c (resource_name_of c)))
                (on_blocks-IsUnharmed (resource_block c (resource_name_of c))
                  (resource_block-Grows c (resource_name_of c))))
        | inr (d, e) ↦
            let rs = validate_annotations resource_annotations c t.records in
            let wrong = diag_from_err_with_context c.context_text d in
            rw (resource_update, e)
              (record {
                package_kept = λ p h. (p, h, IsKept_refl p);
                without = λ h. (h, error_recorded wrong rs refl);
                errors_kept = λ h. error_recorded wrong rs refl;
              })
      ]

  local_update-Handled : (c : Ctx N) (t : Intake N S) → Handled st t (local_update c t)
  unfolding local_update
  local_update-Handled c t =
      with_package-Handled local_annotations c t _
        (on_blocks-IsUnharmed _ (create_once-Grows c (block_name_of c)))

  mixin_update-Handled : (c : Ctx N) (t : Intake N S) → Handled st t (mixin_update c t)
  unfolding mixin_update
  mixin_update-Handled c t =
      with_package-Handled mixin_annotations c t _
        (on_blocks-IsUnharmed _ (create_once-Grows c (block_name_of c)))

  output_update-Handled : (c : Ctx N) (t : Intake N S) → Handled st t (output_update c t)
  unfolding output_update
  output_update-Handled c t = with_package-Handled output_annotations c t _ (
      on_blocks-IsUnharmed _
        (create_once-Grows c (dotted (type_name c.ctx_block_type) (output_name_of c))))

  provider_update-Handled : (c : Ctx N) (t : Intake N S) → Handled st t (provider_update c t)
  unfolding provider_update
  provider_update-Handled c t =
      with_package-Handled provider_annotations c t _
        (on_configs-IsUnharmed _ (create_once-Grows c (name_of c)))

  input_update-Handled : (c : Ctx N) (t : Intake N S) → Handled st t (input_update c t)
  unfolding input_update
  input_update-Handled c t =
      with_package-Handled input_annotations c t _
        (on_blocks-IsUnharmed _ (input_block-Grows c (block_name_of c)))

  backend_update-Handled : (c : Ctx N) (t : Intake N S) → Handled st t (backend_update c t)
  unfolding backend_update
  backend_update-Handled c t =
      with_package-Handled backend_annotations c t _ (backend_block-IsUnharmed c)

  initialize_block-Sound :
      (k : BlockType) (c : Ctx N) (t : Intake N S) → Sound st (initialize_block k) c t
  unfolding initialize_block
  initialize_block-Sound backend c t = backend_update-Handled c t
  initialize_block-Sound provider c t = provider_update-Handled c t
  initialize_block-Sound package_block c t = mixin_update-Handled c t
  initialize_block-Sound input c t = input_update-Handled c t
  initialize_block-Sound output c t = output_update-Handled c t
  initialize_block-Sound local c t = local_update-Handled c t
  initialize_block-Sound resource c t = resource_update-Handled c t
  initialize_block-Sound data_block c t = resource_update-Handled c t
  initialize_block-Sound list_block c t = resource_update-Handled c t
  initialize_block-Sound unknown c t = tt
  initialize_block-Sound required_providers c t = tt
  initialize_block-Sound root_block c t = tt

  -- Whatever the kind of a document: no block and no provider configuration is lost or changed but
  -- by further documents, the backend stays, and no error is taken back; without a package an error
  -- is recorded.
  pub initialize_block-Handled :
      (k : BlockType) (update : Ctx N → Intake N S → Intake N S)
      → initialize_block k ≡ some update
      → (c : Ctx N) (t : Intake N S) → Handled st t (update c t)
  initialize_block-Handled k update e c t =
      subst (λ o. Sound st o c t) e (initialize_block-Sound k c t)
