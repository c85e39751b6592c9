-- ===== src/Package/Intake.antt =====
-- pkg/syntax/types/bt_*.go: how a document becomes a block of a package, one `UpdatePackage` for
-- each kind of block.
use kform.Shared.{
  Bool, Option, Storer, Str, [], err, false, if◌then◌else◌, none, ok, replace_all, some, str_eq,
  true, ℕ, ◌++◌, ◌==◌, ◌∷◌,
}
use kform.Package.BlockTypes.{type_name}
use kform.Package.Blocks.{Block, Ctx, add_data, get_file_name, new_block, underscore}
use kform.Package.Nodes.{
  Nodes, annotation_at, key_block_type, key_count, key_default, key_depends_on, key_description,
  key_for_each, key_lifecycle, key_postcondition, key_precondition, key_provider, key_provisioner,
  key_resource_id, key_resource_type, key_sensitive,
}
use kform.Package.Validator.{Expected, validate_annotations}
use kform.Recorder.{
  Diagnostic, Records, diag_from_err, diag_from_err_with_context, duplicate_resource, record_diag,
  without_package,
}

-- The fields of a package that the intake reads and writes, with a store for each map of blocks.
pub record Package {ℓ κ} (N : Type ℓ) (S : Type κ) : Type (ℓ ⊔ κ) where
  pub pkg_name : Str
  pub is_mixin : Bool
  pub pkg_backend : Option (Block N)
  pub provider_configs : S
  pub blocks : S

-- The package of the context, if there is one, and the recorder.
pub record Intake {ℓ κ} (N : Type ℓ) (S : Type κ) : Type (ℓ ⊔ κ) where
  pub pkg : Option (Package N S)
  pub records : Records

abbrev pub input_annotations : Expected
input_annotations =
    (key_block_type, true)
    ∷ (key_resource_id, false)
    ∷ (key_default, false)
    ∷ (key_description, false)
    ∷ (key_sensitive, false)
    ∷ []

abbrev pub local_annotations : Expected
local_annotations =
    (key_block_type, true)
    ∷ (key_resource_id, true)
    ∷ (key_default, false)
    ∷ (key_description, false)
    ∷ (key_depends_on, false)
    ∷ (key_count, false)
    ∷ (key_for_each, false)
    ∷ (key_precondition, false)
    ∷ (key_postcondition, false)
    ∷ []

abbrev pub mixin_annotations : Expected
mixin_annotations = local_annotations

abbrev pub output_annotations : Expected
output_annotations =
    (key_description, false)
    ∷ (key_sensitive, false)
    ∷ (key_depends_on, false)
    ∷ (key_count, false)
    ∷ (key_for_each, false)
    ∷ []

abbrev pub provider_annotations : Expected
provider_annotations = (key_block_type, true) ∷ (key_resource_id, true) ∷ []

abbrev pub resource_annotations : Expected
resource_annotations =
    (key_block_type, true)
    ∷ (key_resource_type, true)
    ∷ (key_resource_id, true)
    ∷ (key_description, false)
    ∷ (key_depends_on, false)
    ∷ (key_sensitive, false)
    ∷ (key_count, false)
    ∷ (key_for_each, false)
    ∷ (key_precondition, false)
    ∷ (key_postcondition, false)
    ∷ (key_provisioner, false)
    ∷ (key_provider, false)
    ∷ (key_lifecycle, false)
    ∷ []

abbrev pub backend_annotations : Expected
backend_annotations = (key_block_type, true) ∷ (key_resource_id, false) ∷ []

-- The codes of '.' and '-'.
abbrev pub dot : ℕ
dot = 46

abbrev pub dash : ℕ
dash = 45

-- `fmt.Sprintf("%s.%s", a, b)`
abbrev pub dotted : Str → Str → Str
dotted a b = a ++ dot ∷ b

module _ {ℓ} {N : Type ℓ} ⦃y : Nodes N⦄ where
  -- The resource id, or else the name of the document.
  unfoldable pub name_of : Ctx N → Str
  unfolding annotation_at
  name_of c =
      let id = annotation_at (y.annotations c.node) key_resource_id in
      if id == [] then y.node_name c.node else id

  unfoldable pub block_name_of : Ctx N → Str
  unfolding name_of
  block_name_of c = dotted (type_name c.ctx_block_type) (name_of c)

  unfoldable pub output_name_of : Ctx N → Str
  unfolding annotation_at
  output_name_of c =
      let id = annotation_at (y.annotations c.node) key_resource_id in
      let n = c.node in
      if id == []
      then replace_all dot underscore (
          y.node_api_version n
          ++ dash ∷ y.node_kind n
          ++ dash ∷ y.node_namespace n
          ++ dash ∷ y.node_name n)
      else id

  unfoldable pub resource_type_of : Ctx N → Str
  unfolding annotation_at
  resource_type_of c = annotation_at (y.annotations c.node) key_resource_type

  unfoldable pub resource_name_of : Ctx N → Str
  unfolding annotation_at resource_type_of
  resource_name_of c =
      dotted (resource_type_of c) (annotation_at (y.annotations c.node) key_resource_id)

  unfoldable pub duplicate : Ctx N → Block N → Diagnostic
  unfolding get_file_name
  duplicate c b =
      diag_from_err_with_context c.context_text (duplicate_resource (get_file_name b) b.block_name)

  module _ {κ} {S : Type κ} ⦃st : Storer (Block N) S⦄ where
    -- `Create` of a new block, with the check for a duplicate.
    unfoldable pub create_block : Ctx N → Str → S → Records → S × Records
    unfolding new_block duplicate
    create_block c name s rs = elim (st.create_entry name (new_block c name) s) [
      | some s' ↦ (s', rs)
      | none ↦ (s, record_diag (duplicate c (new_block c name)) rs)
    ]

    -- The rest of the handlers that allow one document for each name.
    unfoldable pub create_once : Ctx N → Str → S → Records → S × Records
    unfolding create_block duplicate
    create_once c name s rs = elim (st.get_entry name s) [
      | none ↦ create_block c name s rs
      | some b ↦ (s, record_diag (duplicate c b) rs)
    ]

    -- `block.addData` through the pointer that the store holds.
    unfoldable pub append_data : Ctx N → Str → Block N → S → Records → S × Records
    unfolding add_data
    append_data c name b s rs = elim (add_data b c.node) [
      | ok b' ↦ (st.update_entry name b' s, rs)
      | err e ↦ (s, record_diag (diag_from_err e) rs)
    ]

    -- An error without a package, or else the rest of the handler on the package.
    unfoldable pub with_package :
        Ctx N → Intake N S → (Package N S → Records → Package N S × Records) → Intake N S
    with_package c t f = elim t.pkg [
      | none ↦ record t {
        records = record_diag (diag_from_err_with_context c.context_text without_package) t.records;
      }
      | some p ↦ let r = f p t.records in record { pkg = some r.0; records = r.1 }
    ]

    -- The rest of a handler, on the blocks or on the provider configurations.
    unfoldable pub on_blocks :
        (S → Records → S × Records) → Package N S → Records → Package N S × Records
    on_blocks f p rs = let r = f p.blocks rs in (record p { blocks = r.0 }, r.1)

    unfoldable pub on_configs :
        (S → Records → S × Records) → Package N S → Records → Package N S × Records
    on_configs f p rs =
        let r = f p.provider_configs rs in (record p { provider_configs = r.0 }, r.1)

    abbrev pub checked : Expected → Ctx N → Intake N S → Intake N S
    checked expected c t = record t { records = validate_annotations expected c t.records }
