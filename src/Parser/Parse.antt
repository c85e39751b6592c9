-- ===== src/Parser/Parse.antt =====
-- pkg/syntax/parser/parser.go and dag.go: `Parse`, which the runner calls.
use kform.Shared.{List, Option, Storer, Str, [], false, if◌then◌else◌, none, some, true, ℕ}
use kform.Dag.Edges.{Dag}
use kform.Dag.Reduction.Walk.{Order}
use kform.Package.Blocks.{Block, Ctx}
use kform.Package.Graph.{VertexContext, generate_dag}
use kform.Package.Intake.{Package}
use kform.Package.Nodes.{Nodes}
use kform.Parser.Checks.{
  get_provider_configs, validate_backend, validate_mixins, validate_provider_configs,
  validate_unreferenced_configs,
}
use kform.Parser.Documents.{parse_package_documents}
use kform.Recorder.{Records, has_error}
use kform.Renderer.Walk.{Yaml}

-- What the parser leaves: the package, the diagnostics, and the two graphs, which are none if they
-- were not made, or their reduction does not return with the recursion depth that is given.
pub record Parsed {ℓ κ} (N : Type ℓ) (S : Type κ) : Type (ℓ ⊔ κ) where
  pub root_pkg : Option (Package N S)
  pub parse_records : Records
  pub provider_graph : Option (Dag (VertexContext N))
  pub package_graph : Option (Dag (VertexContext N))

-- The names that `Has` asks for: none of them if the set is nil.
abbrev pub or_nil : Option (List Str) → List Str
or_nil none = []
or_nil (some names) = names

module _ {ℓ κ} {N : Type ℓ} {S : Type κ} ⦃y : Nodes N⦄ ⦃st : Storer (Block N) S⦄ where
  -- `Parse` ends without the graphs.
  abbrev pub stopped : Option (Package N S) → Records → Parsed N S
  stopped p rs = record {
    root_pkg = p;
    parse_records = rs;
    provider_graph = none;
    package_graph = none;
  }

  -- `generateProviderDAG` and `generateDAG`; `file` is `filepath.Join(r.SourceDir, "provider")`.
  unfoldable pub make_graphs : Order → ℕ → Str → Package N S → Records → Parsed N S
  unfolding get_provider_configs generate_dag
  make_graphs ord fuel file p rs = record {
    root_pkg = some p;
    parse_records = rs;
    provider_graph = generate_dag ord fuel file true (or_nil (get_provider_configs p)) p;
    package_graph = generate_dag ord fuel file false [] p;
  }

  -- The checks of `Parse` on the package; none is a panic.
  unfoldable pub validate_package : Str → Package N S → Records → Option Records
  unfolding validate_provider_configs validate_mixins validate_unreferenced_configs validate_backend
  validate_package key p rs = elim (validate_mixins key p (validate_provider_configs p rs)) [
    | none ↦ none
    | some rs' ↦ some (validate_backend p (validate_unreferenced_configs p rs'))
  ]

  unfoldable pub parse_after_package :
      Order → ℕ → Str → Str → Option (Package N S) × Records → Option (Parsed N S)
  unfolding validate_package make_graphs has_error
  parse_after_package ord fuel file key (none, rs) = some (stopped none rs)
  parse_after_package ord fuel file key (some p, rs) = elim (validate_package key p rs) [
    | none ↦ none
    | some rs' ↦
        let made = make_graphs ord fuel file p rs' in
        some (if has_error rs' then stopped (some p) rs' else made)
  ]

  -- `Parse` under a schedule of the goroutines: none is a panic, or that not all of them have ended.
  unfoldable pub parse_kform :
      Order
      → ℕ
      → Str
      → Str
      → (N → Yaml)
      → (Str → Block N → Str)
      → Str
      → S
      → List ℕ
      → List (Ctx N)
      → Option (Parsed N S)
  unfolding parse_package_documents parse_after_package
  parse_kform ord fuel file key yaml_of text name empty schedule cs =
      elim (parse_package_documents yaml_of text name empty schedule cs []) [
        | none ↦ none
        | some r ↦ parse_after_package ord fuel file key r
      ]
