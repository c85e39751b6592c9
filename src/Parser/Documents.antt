-- ===== src/Parser/Documents.antt =====
-- pkg/syntax/parser/pkgparser: the documents become blocks (validator.go), the dependencies are
-- added and resolved (parser.go, resolver.go), as Tasks has it under a schedule of the goroutines.
use kform.Shared.{List, Option, Storer, Str, false, if◌then◌else◌, none, some, ℕ}
use kform.Package.Blocks.{Block, Ctx}
use kform.Package.Intake.{Intake, Package}
use kform.Package.Listing.{
  resolve_dag_dependencies, resolve_resource_to_provider_config, validate_mixin_provider_configs,
}
use kform.Package.Nodes.{Nodes}
use kform.Parser.Tasks.{all_ended, run_tasks, start_tasks}
use kform.Recorder.{Records, has_error}
use kform.Renderer.Dependencies.{add_dependencies}
use kform.Renderer.Walk.{Yaml}

module _ {ℓ κ} {N : Type ℓ} {S : Type κ} ⦃y : Nodes N⦄ ⦃st : Storer (Block N) S⦄ where
  -- `NewPackage`, of the kind ROOT
  abbrev pub new_package : Str → S → Package N S
  new_package name empty = record {
    pkg_name = name;
    is_mixin = false;
    pkg_backend = none;
    provider_configs = empty;
    blocks = empty;
  }

  -- `resolve`
  unfoldable pub resolve_package : (Str → Block N → Str) → Package N S → Records → Records
  unfolding resolve_dag_dependencies resolve_resource_to_provider_config
      validate_mixin_provider_configs
  resolve_package text p rs =
      let rs' = resolve_dag_dependencies text p rs in
      if p.is_mixin
      then validate_mixin_provider_configs p rs'
      else resolve_resource_to_provider_config text p rs'

  -- What follows `validate`: nil after an error.
  unfoldable pub finish_package_parse :
      (N → Yaml) → (Str → Block N → Str) → Intake N S → Option (Package N S) × Records
  unfolding add_dependencies resolve_package has_error
  finish_package_parse yaml_of text t = elim (t.pkg) [
    | none ↦ (none, t.records)
    | some p ↦
        let p' = add_dependencies yaml_of p in
        let rs = resolve_package text p' (t.records) in
        if has_error (t.records)
        then (none, t.records)
        else if has_error rs
        then (none, rs)
        else (some p', rs)
  ]

  -- `Parse` of a package under a schedule: none if not all goroutines have ended.
  unfoldable pub parse_package_documents :
      (N → Yaml)
      → (Str → Block N → Str)
      → Str
      → S
      → List ℕ
      → List (Ctx N)
      → Records
      → Option (Option (Package N S) × Records)
  unfolding run_tasks start_tasks all_ended finish_package_parse
  parse_package_documents yaml_of text name empty schedule cs rs =
      let r =
        run_tasks schedule (start_tasks cs)
          (record { pkg = some (new_package name empty); records = rs }) in
      if all_ended (r.0) then some (finish_package_parse yaml_of text (r.1)) else none
