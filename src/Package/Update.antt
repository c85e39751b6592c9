-- ===== src/Package/Update.antt =====
-- pkg/syntax/types/bt_*.go: the `UpdatePackage` of each kind of block, and
-- pkg/syntax/types/block_types.go, which chooses among them.
use kform.Shared.{Option, Storer, Str, none, some}
use kform.Package.BlockTypes.{
  BlockType, backend, data_block, input, list_block, local, output, package_block, provider,
  resource, type_name,
}
use kform.Package.Blocks.{Block, Ctx, new_block}
use kform.Package.Intake.{
  Intake, Package, append_data, backend_annotations, block_name_of, checked, create_block,
  create_once, dotted, duplicate, input_annotations, local_annotations, mixin_annotations, name_of,
  on_blocks, on_configs, output_annotations, output_name_of, provider_annotations,
  resource_annotations, resource_name_of, resource_type_of, with_package,
}
use kform.Package.Nodes.{Nodes}
use kform.Package.Validator.{validate_resource_syntax}
use kform.Recorder.{Records, diag_from_err_with_context, more_than_one_backend, record_diag}

module _ {ℓ} {N : Type ℓ} ⦃y : Nodes N⦄ where
  -- A list block is reported as a duplicate.
  unfoldable pub list_duplicate : BlockType → Ctx N → Block N → Records → Records
  unfolding duplicate
  list_duplicate list_block c b rs = record_diag (duplicate c b) rs
  list_duplicate _ c b rs = rs

module _ {ℓ κ} {N : Type ℓ} ⦃y : Nodes N⦄ {S : Type κ} ⦃st : Storer (Block N) S⦄ where
  unfoldable pub local_update : Ctx N → Intake N S → Intake N S
  unfolding with_package on_blocks create_once block_name_of
  local_update c t =
      with_package c (checked local_annotations c t) (on_blocks (create_once c (block_name_of c)))

  unfoldable pub mixin_update : Ctx N → Intake N S → Intake N S
  unfolding with_package on_blocks create_once block_name_of
  mixin_update c t =
      with_package c (checked mixin_annotations c t) (on_blocks (create_once c (block_name_of c)))

  unfoldable pub output_update : Ctx N → Intake N S → Intake N S
  unfolding with_package on_blocks create_once output_name_of
  output_update c t =
      with_package c (checked output_annotations c t)
        (on_blocks (create_once c (dotted (type_name c.ctx_block_type) (output_name_of c))))

  unfoldable pub provider_update : Ctx N → Intake N S → Intake N S
  unfolding with_package on_configs create_once name_of
  provider_update c t =
      with_package c (checked provider_annotations c t) (on_configs (create_once c (name_of c)))

  unfoldable pub input_block : Ctx N → Str → S → Records → S × Records
  unfolding create_block append_data
  input_block c name s rs = elim (st.get_entry name s) [
    | none ↦ create_block c name s rs
    | some b ↦ append_data c name b s rs
  ]

  unfoldable pub input_update : Ctx N → Intake N S → Intake N S
  unfolding with_package on_blocks input_block block_name_of
  input_update c t =
      with_package c (checked input_annotations c t) (on_blocks (input_block c (block_name_of c)))

  -- The document is added to a list block all the same.
  unfoldable pub resource_block : Ctx N → Str → S → Records → S × Records
  unfolding create_block append_data list_duplicate
  resource_block c name s rs = elim (st.get_entry name s) [
    | none ↦ create_block c name s rs
    | some b ↦ append_data c name b s (list_duplicate c.ctx_block_type c b rs)
  ]

  unfoldable pub resource_update : Ctx N → Intake N S → Intake N S
  unfolding with_package on_blocks resource_block resource_name_of validate_resource_syntax
      resource_type_of
  resource_update c t =
      let t' = checked resource_annotations c t in
      elim (validate_resource_syntax (resource_type_of c)) [
        | some e ↦ record t' {
          records = record_diag (diag_from_err_with_context c.context_text e) t'.records;
        }
        | none ↦ with_package c t' (on_blocks (resource_block c (resource_name_of c)))
      ]

  -- One backend at most.
  unfoldable pub backend_block : Ctx N → Package N S → Records → Package N S × Records
  unfolding create_block block_name_of new_block
  backend_block c p rs = elim p.pkg_backend [
    | some _ ↦ (p, record_diag (diag_from_err_with_context c.context_text more_than_one_backend) rs)
    | none ↦
        let name = block_name_of c in
        let r = create_block c name p.blocks rs in
        (record p { blocks = r.0; pkg_backend = some (new_block c name) }, r.1)
  ]

  unfoldable pub backend_update : Ctx N → Intake N S → Intake N S
  unfolding with_package backend_block
  backend_update c t = with_package c (checked backend_annotations c t) (backend_block c)

  -- `InitializeBlock` and `UpdatePackage` of the block that it returns; a kind that has no
  -- initializer is the error `none`.
  unfoldable pub initialize_block : BlockType → Option (Ctx N → Intake N S → Intake N S)
  initialize_block backend = some backend_update
  initialize_block provider = some provider_update
  initialize_block package_block = some mixin_update
  initialize_block input = some input_update
  initialize_block output = some output_update
  initialize_block local = some local_update
  initialize_block resource = some resource_update
  initialize_block data_block = some resource_update
  initialize_block list_block = some resource_update
  initialize_block _ = none
