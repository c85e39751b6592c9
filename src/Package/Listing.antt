-- ===== src/Package/Listing.antt =====
-- pkg/syntax/types/package.go: which blocks a stage works on, and the checks of the dependencies.
use kform.Shared.{
  Assoc, Bool, List, Storer, Str, [], add, false, first_part, has_prefix, if◌then◌else◌, keys,
  length, ltb, none, not, some, str, str_eq, true, ◌&&◌, ◌==◌, ◌||◌, ◌∷◌,
}
use kform.Package.Blocks.{Block, has_count, has_for_each, underscore}
use kform.Package.Intake.{Package, dot}
use kform.Package.Nodes.{Nodes, annotation_at, get_copies, key_lifecycle}
use kform.Recorder.{
  Records, diag_errorf, diag_errorf_with_context, mixin_provider_configs, record_diag,
  unresolved_block, unresolved_count, unresolved_each, unresolved_provider,
}

abbrev pub key_each : Str
key_each = str "each"

abbrev pub key_loop_count : Str
key_loop_count = str "count"

pub record ListOptions : Type 0 where
  pub prefix : Str
  pub prefix_excludes : List Str
  pub exclude_orphan : Bool

-- Has the name one of the prefixes?
unfoldable pub has_some_prefix : Str → List Str → Bool
unfolding has_prefix
has_some_prefix name [] = false
has_some_prefix name (p ∷ ps) = has_prefix name p || has_some_prefix name ps

-- The options of `generateDAG` for a package.
abbrev pub vertex_options : ListOptions
vertex_options = record { prefix = []; prefix_excludes = str "backend" ∷ []; exclude_orphan = true }

-- The options of `generateDAG` for the providers: the inputs.
abbrev pub input_options : ListOptions
input_options = record { prefix = str "input"; prefix_excludes = []; exclude_orphan = false }

abbrev pub resource_options : ListOptions
resource_options = record {
  prefix = [];
  prefix_excludes =
      str "input"
      ∷ str "output"
      ∷ str "local"
      ∷ str "package"
      ∷ str "provider"
      ∷ str "backend"
      ∷ [];
  exclude_orphan = true;
}

abbrev pub provider_check_options : ListOptions
provider_check_options = record {
  prefix = [];
  prefix_excludes = str "input" ∷ str "output" ∷ str "local" ∷ str "package" ∷ str "backend" ∷ [];
  exclude_orphan = false;
}

module _ {ℓ} {N : Type ℓ} ⦃y : Nodes N⦄ where
  -- Has the first document of the block a lifecycle annotation?
  unfoldable pub is_orphan : Block N → Bool
  unfolding annotation_at
  is_orphan b = elim (get_copies b.block_data) [
    | [] ↦ false
    | rn ∷ _ ↦ not (annotation_at (y.annotations rn) key_lifecycle == [])
  ]

  unfoldable pub excluded : ListOptions → Str → Block N → Bool
  unfolding has_prefix has_some_prefix is_orphan
  excluded o name b =
      (not (o.prefix == []) && not (has_prefix name o.prefix))
      || (has_some_prefix name o.prefix_excludes || (o.exclude_orphan && is_orphan b))

  -- The callback of `List` for each entry.
  unfoldable pub select_blocks : ListOptions → Assoc Str (Block N) → Assoc Str (Block N)
  unfolding excluded
  select_blocks o [] = []
  select_blocks o ((name, b) ∷ m) =
      let rest = select_blocks o m in if excluded o name b then rest else (name, b) ∷ rest

  unfoldable pub provider_names : (Str → Str) → Assoc Str (Block N) → List Str
  provider_names f [] = []
  provider_names f ((_, b) ∷ m) = add (f b.attributes.provider_name) (provider_names f m)

  module _ {κ} {S : Type κ} ⦃st : Storer (Block N) S⦄ where
    unfoldable pub list_blocks : ListOptions → S → Assoc Str (Block N)
    unfolding select_blocks
    list_blocks o s = select_blocks o (st.list_entries s)

    unfoldable pub list_providers_from_resources : Package N S → List Str
    unfolding list_blocks provider_names
    list_providers_from_resources p =
        provider_names (λ n. n) (list_blocks resource_options p.blocks)

    unfoldable pub list_raw_providers_from_resources : Package N S → List Str
    unfolding list_blocks provider_names
    list_raw_providers_from_resources p =
        provider_names (first_part underscore) (list_blocks resource_options p.blocks)

    -- The body of the loop of `resolveDependencies`.
    unfoldable pub resolve_dependency : Package N S → Str → Block N → Str → Records → Records
    unfolding first_part
    resolve_dependency p c b d rs =
        if first_part dot d == key_each
        then (if has_for_each b
            then rs
            else record_diag (diag_errorf_with_context c (unresolved_each d)) rs)
        else if first_part dot d == key_loop_count
        then (if has_count b
            then rs
            else record_diag (diag_errorf_with_context c (unresolved_count d)) rs)
        else elim (st.get_entry d p.blocks) [
          | some _ ↦ rs
          | none ↦ record_diag (diag_errorf_with_context c (unresolved_block d)) rs
        ]

    unfoldable pub resolve_dependencies : Package N S → Str → Block N → List Str → Records → Records
    unfolding resolve_dependency
    resolve_dependencies p c b [] rs = rs
    resolve_dependencies p c b (d ∷ ds) rs =
        resolve_dependencies p c b ds (resolve_dependency p c b d rs)

    -- The loop of `ResolveDAGDependencies`; `text` is `GetContext`.
    unfoldable pub resolve_blocks :
        (Str → Block N → Str) → Package N S → Assoc Str (Block N) → Records → Records
    unfolding resolve_dependencies
    resolve_blocks text p [] rs = rs
    resolve_blocks text p ((name, b) ∷ m) rs =
        resolve_blocks text p m (resolve_dependencies p (text name b) b b.dependencies rs)

    unfoldable pub resolve_dag_dependencies :
        (Str → Block N → Str) → Package N S → Records → Records
    unfolding resolve_blocks
    resolve_dag_dependencies text p rs = resolve_blocks text p (st.list_entries p.blocks) rs

    -- The loop of `ResolveResource2ProviderConfig`.
    unfoldable pub resolve_providers :
        (Str → Block N → Str) → Package N S → Assoc Str (Block N) → Records → Records
    resolve_providers text p [] rs = rs
    resolve_providers text p ((name, b) ∷ m) rs =
        resolve_providers text p m
          (elim (st.get_entry b.attributes.provider_name p.provider_configs) [
            | some _ ↦ rs
            | none ↦
                record_diag
                  (diag_errorf_with_context (text name b)
                    (unresolved_provider b.attributes.provider_name))
                  rs
          ])

    unfoldable pub resolve_resource_to_provider_config :
        (Str → Block N → Str) → Package N S → Records → Records
    unfolding resolve_providers list_blocks
    resolve_resource_to_provider_config text p rs =
        resolve_providers text p (list_blocks provider_check_options p.blocks) rs

    unfoldable pub validate_mixin_provider_configs : Package N S → Records → Records
    validate_mixin_provider_configs p rs =
        let names = keys (st.list_entries p.provider_configs) in
        if p.is_mixin && ltb 0 (length names)
        then record_diag (diag_errorf (mixin_provider_configs names)) rs
        else rs
