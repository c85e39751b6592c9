-- ===== src/Renderer/Dependencies.antt =====
-- pkg/render2/deprenderer/renderer.go, and `AddDependencies` of pkg/syntax/types/package.go.
use kform.Shared.{
  Assoc, Bool, List, Result, Storer, Str, [], add, contains_text, false, has_prefix, if◌then◌else◌,
  keys, ok, split, str, str_eq, true, ◌==◌, ◌||◌, ◌∷◌,
}
use kform.Package.Blocks.{Block, update_dependencies, update_pkg_dependencies}
use kform.Package.Intake.{Package}
use kform.Package.Listing.{ListOptions, list_blocks}
use kform.Package.Nodes.{BlockData, Nodes, annotation_at, get_copies, key_depends_on}
use kform.Renderer.Walk.{Yaml, render}

-- The two sets that the renderer fills.
pub record Found : Type 0 where
  pub deps : List Str
  pub pkgdeps : List Str

-- A dependency; those on packages are noted twice.
unfoldable pub note : Str → Found → Found
unfolding has_prefix add
note name f = record {
  deps = add name (f.deps);
  pkgdeps = if has_prefix name (str "package") then add name (f.pkgdeps) else f.pkgdeps;
}

unfoldable pub note_if : Bool → Str → Found → Found
unfolding note
note_if true name f = note name f
note_if false name f = f

-- The loop of `RenderString` over the names of the blocks.
unfoldable pub note_contained : List Str → Str → Found → Found
unfolding contains_text note_if
note_contained [] expr f = f
note_contained (b ∷ bs) expr f = note_contained bs expr (note_if (contains_text expr b) b f)

-- `RenderString`
unfoldable pub render_string : List Str → Str → Found → Found × Result Str Str
unfolding note_contained
render_string blocks expr f = (note_contained blocks expr f, ok expr)

-- Is some name contained in the text?
unfoldable pub contains_some : List Str → Str → Bool
unfolding contains_text
contains_some [] part = false
contains_some (b ∷ bs) part = contains_text part b || contains_some bs part

-- The loop of `ResolveDependsOn` over the parts of the annotation; the error of a part that is not
-- found is joined to nothing, and lost.
unfoldable pub note_parts : List Str → List Str → Found → Found
unfolding contains_some note_if
note_parts blocks [] f = f
note_parts blocks (p ∷ ps) f = note_parts blocks ps (note_if (contains_some blocks p) p f)

abbrev pub orphan_options : ListOptions
orphan_options = record { prefix = []; prefix_excludes = []; exclude_orphan = true }

abbrev pub dependent_options : ListOptions
dependent_options = record {
  prefix = [];
  prefix_excludes = str "input" ∷ str "backend" ∷ [];
  exclude_orphan = true;
}

module _ {ℓ} {N : Type ℓ} ⦃y : Nodes N⦄ (yaml_of : N → Yaml) where
  -- `ResolveDependsOn`
  unfoldable pub resolve_depends_on : List Str → N → Found → Found
  unfolding annotation_at note_parts split
  resolve_depends_on blocks rn f =
      let text = annotation_at (y.annotations rn) key_depends_on in
      if text == [] then f else note_parts blocks (split 44 text) f

  -- The loop of `AddDependencies` over the documents of a block.
  unfoldable pub find_dependencies : List Str → BlockData N → Found → Found
  unfolding render resolve_depends_on
  find_dependencies blocks [] f = f
  find_dependencies blocks (rn ∷ bd) f =
      find_dependencies blocks bd
        (resolve_depends_on blocks rn ((render (render_string blocks) (yaml_of rn) f).0))

  abbrev pub nothing_found : Found
  nothing_found = record { deps = []; pkgdeps = [] }

  unfoldable pub with_dependencies : List Str → Block N → Block N
  unfolding find_dependencies
  with_dependencies blocks b =
      let f = find_dependencies blocks (get_copies (b.block_data)) nothing_found in
      update_pkg_dependencies (update_dependencies b (f.deps)) (f.pkgdeps)

  module _ {κ} {S : Type κ} ⦃st : Storer (Block N) S⦄ where
    unfoldable pub add_all_dependencies : List Str → Assoc Str (Block N) → S → S
    unfolding with_dependencies
    add_all_dependencies blocks [] s = s
    add_all_dependencies blocks ((name, b) ∷ m) s =
        add_all_dependencies blocks m (st.update_entry name (with_dependencies blocks b) s)

    -- `AddDependencies`; the renderer returns no error.
    unfoldable pub add_dependencies : Package N S → Package N S
    unfolding add_all_dependencies list_blocks keys
    add_dependencies p = record p {
      blocks =
          add_all_dependencies (keys (list_blocks {N = N} orphan_options (p.blocks)))
            (list_blocks dependent_options (p.blocks)) (p.blocks);
    }
