-- ===== src/Package/Nodes.antt =====
-- What the code reads of a `*yaml.RNode` of kyaml (a parameter of the model), the keys of
-- apis/pkg/v1alpha1/annotation_types.go, and pkg/data/blockdata.go as far as the intake of
-- documents uses it.
use kform.Shared.{Assoc, Bool, List, Str, [], lookup, map, none, some, str, str_eq, ◌++◌, ◌∷◌, ◌≡◌}

pub record Nodes {ℓ} (N : Type ℓ) : Type ℓ where
  pub is_nil : N → Bool
  pub copy : N → N
  pub annotations : N → Assoc Str Str
  pub node_name : N → Str
  pub node_namespace : N → Str
  pub node_api_version : N → Str
  pub node_kind : N → Str
  -- `Copy` is a deep copy
  pub annotations-copy : (n : N) → annotations (copy n) ≡ annotations n

-- `annotations[key]`: the empty text if there is no such key
unfoldable pub annotation_at : Assoc Str Str → Str → Str
annotation_at m k = elim (lookup k m) [ none ↦ [] | some v ↦ v ]

abbrev pub key_prefix : Str
key_prefix = str "kform.dev"

abbrev pub key_block_type : Str
key_block_type = str "kform.dev/block-type"

abbrev pub key_resource_type : Str
key_resource_type = str "kform.dev/resource-type"

abbrev pub key_resource_id : Str
key_resource_id = str "kform.dev/resource-id"

abbrev pub key_count : Str
key_count = str "kform.dev/count"

abbrev pub key_for_each : Str
key_for_each = str "kform.dev/for-each"

abbrev pub key_depends_on : Str
key_depends_on = str "kform.dev/depends-on"

abbrev pub key_default : Str
key_default = str "kform.dev/default"

abbrev pub key_source : Str
key_source = str "kform.dev/source"

abbrev pub key_description : Str
key_description = str "kform.dev/description"

abbrev pub key_sensitive : Str
key_sensitive = str "kform.dev/sensitive"

abbrev pub key_lifecycle : Str
key_lifecycle = str "kform.dev/lifecycle"

abbrev pub key_precondition : Str
key_precondition = str "kform.dev/pre-condition"

abbrev pub key_postcondition : Str
key_postcondition = str "kform.dev/post-condition"

abbrev pub key_provider : Str
key_provider = str "kform.dev/provider"

abbrev pub key_provisioner : Str
key_provisioner = str "kform.dev/provisioner"

abbrev pub key_organization : Str
key_organization = str "kform.dev/organization"

abbrev pub key_alias : Str
key_alias = str "kform.dev/alias"

abbrev pub key_hostname : Str
key_hostname = str "kform.dev/hostname"

abbrev pub key_version : Str
key_version = str "kform.dev/version"

abbrev pub key_providers : Str
key_providers = str "kform.dev/providers"

abbrev pub key_path : Str
key_path = str "kform.dev/path"

abbrev pub key_index : Str
key_index = str "kform.dev/index"

-- `[]*yaml.RNode`
abbrev pub BlockData {ℓ} : Type ℓ → Type ℓ
BlockData N = List N

module _ {ℓ} {N : Type ℓ} where
  abbrev pub add_node : BlockData N → N → BlockData N
  add_node r rn = r ++ rn ∷ []

  -- `Get`: the copies.
  abbrev pub get_copies : ⦃y : Nodes N⦄ → BlockData N → BlockData N
  get_copies ⦃y⦄ r = map (y.copy) r
