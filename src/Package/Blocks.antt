-- ===== src/Package/Blocks.antt =====
-- pkg/syntax/types/block.go: a block, its attributes and its methods.
-- `InputParameters` and `Providers` are never set there, and are left out.
use kform.Shared.{
  Assoc, Bool, List, Result, Str, [], err, false, first_part, if◌then◌else◌, not, ok, str_eq, true,
  ℕ, ◌++◌, ◌==◌, ◌∷◌,
}
use kform.Package.BlockTypes.{BlockType, data_block, list_block, resource}
use kform.Package.Nodes.{
  BlockData, Nodes, add_node, annotation_at, key_alias, key_count, key_depends_on, key_description,
  key_for_each, key_hostname, key_lifecycle, key_organization, key_postcondition, key_precondition,
  key_provider, key_provisioner, key_resource_id, key_resource_type, key_sensitive, key_source,
}
use kform.Recorder.{Detail, block_without_node}

pub record Attributes : Type 0 where
  pub api_version : Str
  pub kind : Str
  pub resource_type : Str
  pub resource_id : Str
  pub count : Str
  pub for_each : Str
  pub depends_on : Str
  pub provider_name : Str
  pub description : Str
  pub sensitive : Bool
  pub life_cycle : Str
  pub pre_condition : Str
  pub post_condition : Str
  pub provisioner : Str
  pub organization : Str
  pub source : Str
  pub alias : Str
  pub host_name : Str

pub record Block {ℓ} (N : Type ℓ) : Type ℓ where
  pub block_type : BlockType
  pub block_name : Str
  pub file_names : List Str
  pub index : Str
  pub package_name : Str
  pub block_data : BlockData N
  pub attributes : Attributes
  pub dependencies : List Str
  pub pkg_dependencies : List Str

-- What `UpdatePackage` reads from its context, but for the package; `context_text` is what
-- `Context{ctx}.String()` returns.
pub record Ctx {ℓ} (N : Type ℓ) : Type ℓ where
  pub ctx_block_type : BlockType
  pub node : N
  pub file_name : Str
  pub ctx_index : Str
  pub ctx_package_name : Str
  pub context_text : Str

-- Of a resource, data or list block.
abbrev pub has_provider : BlockType → Bool
has_provider t = elim t [ resource ↦ true | data_block ↦ true | list_block ↦ true | _ ↦ false ]

-- The code of '_'.
abbrev pub underscore : ℕ
underscore = 95

unfoldable pub provider_of : BlockType → Assoc Str Str → Str
unfolding annotation_at
provider_of t m =
    if has_provider t
    then (if annotation_at m key_provider == []
        then first_part underscore (annotation_at m key_resource_type)
        else annotation_at m key_provider)
    else []

-- The code of ','.
abbrev pub comma : ℕ
comma = 44

-- The file names after the first one, each after a comma.
unfoldable pub more_names : List Str → Str
more_names [] = []
more_names (f ∷ fs) = comma ∷ f ++ more_names fs

module _ {ℓ} {N : Type ℓ} where
  unfoldable pub get_attributes : ⦃y : Nodes N⦄ → BlockType → N → Attributes
  unfolding annotation_at provider_of
  get_attributes ⦃y⦄ t rn =
      let m = y.annotations rn in
      record {
        api_version = y.node_api_version rn;
        kind = y.node_kind rn;
        resource_type = annotation_at m key_resource_type;
        resource_id = annotation_at m key_resource_id;
        count = annotation_at m key_count;
        for_each = annotation_at m key_for_each;
        depends_on = annotation_at m key_depends_on;
        provider_name = provider_of t m;
        description = annotation_at m key_description;
        sensitive = not (annotation_at m key_sensitive == []);
        life_cycle = annotation_at m key_lifecycle;
        pre_condition = annotation_at m key_precondition;
        post_condition = annotation_at m key_postcondition;
        provisioner = annotation_at m key_provisioner;
        organization = annotation_at m key_organization;
        source = annotation_at m key_source;
        alias = annotation_at m key_alias;
        host_name = annotation_at m key_hostname;
      }

  unfoldable pub new_block : ⦃y : Nodes N⦄ → Ctx N → Str → Block N
  unfolding get_attributes
  new_block c name = record {
    block_type = c.ctx_block_type;
    block_name = name;
    file_names = c.file_name ∷ [];
    index = c.ctx_index;
    package_name = c.ctx_package_name;
    block_data = add_node [] c.node;
    attributes = get_attributes c.ctx_block_type c.node;
    dependencies = [];
    pkg_dependencies = [];
  }

  -- `addData`: an error for a nil node.
  unfoldable pub add_data : ⦃y : Nodes N⦄ → Block N → N → Result Detail (Block N)
  add_data ⦃y⦄ b rn =
      if y.is_nil rn
      then err block_without_node
      else ok (record b { block_data = add_node b.block_data rn })

  abbrev pub update_dependencies : Block N → List Str → Block N
  update_dependencies b d = record b { dependencies = d }

  abbrev pub update_pkg_dependencies : Block N → List Str → Block N
  update_pkg_dependencies b d = record b { pkg_dependencies = d }

  abbrev pub has_for_each : Block N → Bool
  has_for_each b = not (b.attributes.for_each == [])

  abbrev pub has_count : Block N → Bool
  has_count b = not (b.attributes.count == [])

  unfoldable pub get_file_name : Block N → Str
  unfolding more_names
  get_file_name b = elim b.file_names [ [] ↦ [] | f ∷ fs ↦ f ++ more_names fs ]
