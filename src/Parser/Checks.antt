-- ===== src/Parser/Checks.antt =====
-- pkg/syntax/parser/validator.go and provider.go, over the one package that the parser makes:
-- packages that it mixes in are not read (the code for it is a comment).
use kform.Shared.{
  Assoc, Bool, List, Option, Storer, Str, [], add, contains, delete, false, if◌then◌else◌, keys,
  none, some, split, str, str_eq, true, ◌++◌, ◌==◌, ◌∷◌,
}
use kform.Package.Blocks.{Block}
use kform.Package.Intake.{Package, dot, dotted}
use kform.Package.Listing.{ListOptions, list_blocks, list_providers_from_resources}
use kform.Package.Nodes.{Nodes}
use kform.Recorder.{
  Detail, Records, diag_errorf, diag_warnf_with_context, mixin_not_found, no_backend,
  no_provider_config, output_not_found, record_diag, unreferenced_configs,
}

abbrev pub resource_prefix : ListOptions
resource_prefix = record { prefix = str "resource"; prefix_excludes = []; exclude_orphan = true }

abbrev pub mixin_prefix : ListOptions
mixin_prefix = record { prefix = str "package"; prefix_excludes = []; exclude_orphan = false }

abbrev pub all_blocks : ListOptions
all_blocks = record { prefix = []; prefix_excludes = []; exclude_orphan = false }

-- An error, unless the condition holds.
unfoldable pub record_unless : Bool → Detail → Records → Records
record_unless true m rs = rs
record_unless false m rs = record_diag (diag_errorf m) rs

unfoldable pub require_configs : List Str → List Str → Records → Records
unfolding contains record_unless
require_configs configs [] rs = rs
require_configs configs (n ∷ ns) rs =
    require_configs configs ns (record_unless (contains configs n) (no_provider_config n) rs)

-- The mixins that are called are packages: that of the parser has the key `key`.
unfoldable pub require_mixins : Str → List Str → Records → Records
unfolding record_unless
require_mixins key [] rs = rs
require_mixins key (n ∷ ns) rs =
    require_mixins key ns (record_unless (n == key) (mixin_not_found n) rs)

-- `ListPkgDependencies`
unfoldable pub pkg_dependencies_of {ℓ} : {N : Type ℓ} → Assoc Str (Block N) → List Str
unfolding add
pkg_dependencies_of [] = []
pkg_dependencies_of ((_, b) ∷ m) = b.pkg_dependencies ++ pkg_dependencies_of m

-- `getUnReferencedProviderConfigs`, before they are sorted
unfoldable pub delete_all : List Str → List Str → List Str
unfolding delete
delete_all [] configs = configs
delete_all (n ∷ ns) configs = delete_all ns (delete n configs)

-- The providers of `GetProviderConfigs`: none if a configuration is missing, which the code
-- returns without an error.
unfoldable pub used_configs : List Str → List Str → Option (List Str)
unfolding contains
used_configs configs [] = some []
used_configs configs (n ∷ ns) =
    let rest = used_configs configs ns in
    if contains configs n then elim rest [ none ↦ none | some used ↦ some (n ∷ used) ] else none

module _ {ℓ κ} {N : Type ℓ} {S : Type κ} ⦃y : Nodes N⦄ ⦃st : Storer (Block N) S⦄ where
  -- There is a backend, or no resource; `ListResources` of package.go.
  unfoldable pub has_backend : Package N S → Bool
  unfolding list_blocks
  has_backend p = elim (list_blocks {N = N} resource_prefix (p.blocks)) [
    | [] ↦ true
    | _ ∷ _ ↦ elim (p.pkg_backend) [ some _ ↦ true | none ↦ false ]
  ]

  -- `validateBackend`
  unfoldable pub validate_backend : Package N S → Records → Records
  unfolding has_backend record_unless
  validate_backend p rs = record_unless (has_backend p) no_backend rs

  -- `ListProviderConfigs`
  abbrev pub config_names : Package N S → List Str
  config_names p = keys (st.list_entries (p.provider_configs))

  -- `validateProviderConfigs`
  unfoldable pub validate_provider_configs : Package N S → Records → Records
  unfolding require_configs list_providers_from_resources
  validate_provider_configs p rs =
      if p.is_mixin
      then rs
      else require_configs (config_names p) (list_providers_from_resources p) rs

  unfoldable pub has_block : Package N S → Str → Bool
  has_block p name = elim (st.get_entry name (p.blocks)) [ none ↦ false | some _ ↦ true ]

  -- The output of a mixin that a block reads: none is a panic, for a dependency of fewer than three
  -- parts or for a package that is not there.
  unfoldable pub require_output : Str → List Str → Package N S → List Str → Records → Option Records
  unfolding contains record_unless has_block
  require_output key mixins p (a ∷ b ∷ c ∷ _) rs =
      let name = dotted a b in
      let out = dotted (str "output") c in
      if name == key
      then some (
          record_unless (has_block p out) (output_not_found out)
            (record_unless (contains mixins name) (mixin_not_found name) rs))
      else none
  require_output key mixins p _ rs = none

  unfoldable pub require_outputs :
      Str → List Str → Package N S → List Str → Records → Option Records
  unfolding require_output split
  require_outputs key mixins p [] rs = some rs
  require_outputs key mixins p (d ∷ ds) rs = elim (require_output key mixins p (split dot d) rs) [
    | none ↦ none
    | some rs' ↦ require_outputs key mixins p ds rs'
  ]

  -- `validateMixins`; the parameters and the providers of a mixin are never set.
  unfoldable pub validate_mixins : Str → Package N S → Records → Option Records
  unfolding require_mixins require_outputs pkg_dependencies_of list_blocks keys
  validate_mixins key p rs =
      let mixins = keys (list_blocks {N = N} mixin_prefix (p.blocks)) in
      require_outputs key mixins p (pkg_dependencies_of (list_blocks {N = N} all_blocks (p.blocks)))
        (require_mixins key mixins rs)

  unfoldable pub unreferenced : Package N S → List Str
  unfolding delete_all list_providers_from_resources
  unreferenced p = delete_all (list_providers_from_resources p) (config_names p)

  -- `validateUnreferencedProviderConfigs`
  unfoldable pub validate_unreferenced_configs : Package N S → Records → Records
  unfolding unreferenced
  validate_unreferenced_configs p rs = elim (unreferenced p) [
    | [] ↦ rs
    | n ∷ ns ↦ record_diag (diag_warnf_with_context [] (unreferenced_configs (n ∷ ns))) rs
  ]

  unfoldable pub get_provider_configs : Package N S → Option (List Str)
  unfolding used_configs list_providers_from_resources
  get_provider_configs p =
      if p.is_mixin
      then some []
      else used_configs (config_names p) (list_providers_from_resources p)
