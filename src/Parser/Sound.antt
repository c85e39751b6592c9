-- ===== src/Parser/Sound.antt =====
-- What a parse without an error promises.
use mathlib.Core.Option.{some-injective}
use kform.Shared.{
  All, All-mono, Assoc, Bool, Bool-cases, List, Option, Option-cases, Storer, Str, [], ap, arith,
  false, if◌then◌else◌, inl, inr, keys, none, refl, some, str_eq, subst, sym, true, ℕ, ◌==◌, ◌∙◌,
  ◌∷◌, ◌≡◌,
}
use kform.Dag.Edges.{root}
use kform.Dag.Reduction.Walk.{Order}
use kform.Package.Blocks.{Block, Ctx}
use kform.Package.Graph.{generate_dag}
use kform.Package.Growth.{error_recorded}
use kform.Package.Intake.{Intake, Package}
use kform.Package.Listing.{
  list_blocks, provider_check_options, resolve_dag_dependencies, resolve_providers,
  resolve_resource_to_provider_config,
}
use kform.Package.Nodes.{Nodes}
use kform.Package.Resolved.{all_blocks_follow, resolve_dag_dependencies-has_error}
use kform.Parser.Checks.{get_provider_configs}
use kform.Parser.Clean.{validate_package-clean}
use kform.Parser.Documents.{
  finish_package_parse, new_package, parse_package_documents, resolve_package,
}
use kform.Parser.Parse.{
  Parsed, make_graphs, or_nil, parse_after_package, parse_kform, stopped, validate_package,
}
use kform.Parser.Placed.{HasPlace, IsThere, KeepsNames, Settled}
use kform.Parser.Settled.{run_tasks-Settled}
use kform.Parser.Steps.{KeepsNames-parts}
use kform.Parser.Tasks.{all_ended, place_of, run_tasks, start_tasks, target_name, with_kind}
use kform.Recorder.{
  Diagnostic, Records, diag_errorf_with_context, has_error, is_error, record_diag,
  unresolved_provider,
}
use kform.Renderer.Dependencies.{
  add_all_dependencies, add_dependencies, dependent_options, orphan_options, with_dependencies,
}
use kform.Renderer.Walk.{Yaml}

recorded-IsThere {ℓ} :
    {A : Type ℓ} (o : Option A) (d : Diagnostic) (rs : Records)
    → is_error d ≡ true
    → has_error (elim o as (λ _. Records) [ some _ ↦ rs | none ↦ record_diag d rs ]) ≡ false
    → (has_error rs ≡ false) × IsThere o
recorded-IsThere (some a) d rs e h = (h, (a, refl))
recorded-IsThere none d rs e h = absurd (let g = error_recorded d rs e in cc)

module _ {ℓ κ} {N : Type ℓ} {S : Type κ} ⦃y : Nodes N⦄ ⦃st : Storer (Block N) S⦄ where
  -- The resource of the list has a configuration for its provider.
  abbrev pub IsConfigured : Package N S → Str × Block N → Type ℓ
  IsConfigured p e = IsThere (st.get_entry (e.1.attributes.provider_name) (p.provider_configs))

  resolve_providers-has_error :
      (text : Str → Block N → Str) (p : Package N S) (m : Assoc Str (Block N)) (rs : Records)
      → has_error (resolve_providers text p m rs) ≡ false
      → (has_error rs ≡ false) × All (IsConfigured p) m
  unfolding resolve_providers
  resolve_providers-has_error text p [] rs h = (h, tt)
  resolve_providers-has_error text p ((name, b) ∷ m) rs h =
      let (f, g) = resolve_providers-has_error text p m _ h in
      let (f', there) =
        recorded-IsThere (st.get_entry (b.attributes.provider_name) (p.provider_configs))
          (diag_errorf_with_context (text name b)
            (unresolved_provider (b.attributes.provider_name)))
          rs refl f in
      (f', (there, g))

  add_all_dependencies-IsThere :
      (yaml_of : N → Yaml) (names : List Str) (m : Assoc Str (Block N)) (s : S) (j : Str)
      → IsThere (st.get_entry j s)
      → IsThere (st.get_entry j (add_all_dependencies yaml_of names m s))
  unfolding add_all_dependencies
  add_all_dependencies-IsThere yaml_of names [] s j h = h
  add_all_dependencies-IsThere yaml_of names ((name, b) ∷ m) s j (a, e) =
      let b' = with_dependencies yaml_of names b in
      add_all_dependencies-IsThere yaml_of names m (st.update_entry name b' s) j
        (elim (Bool-cases (name == j)) [
          | inl same ↦ (b', st.get-update name j b' s ∙ rw same refl)
          | inr apart ↦ (a, st.get-update name j b' s ∙ rw apart e)
        ])

  add_dependencies-KeepsNames :
      (yaml_of : N → Yaml) (p : Package N S) → KeepsNames p (add_dependencies yaml_of p)
  unfolding add_dependencies
  add_dependencies-KeepsNames yaml_of p =
      let names = keys (list_blocks {N = N} orphan_options (p.blocks)) in
      let m = list_blocks {N = N} dependent_options (p.blocks) in
      KeepsNames-parts p (add_dependencies yaml_of p) refl
        (λ j b h. add_all_dependencies-IsThere yaml_of names m (p.blocks) j (b, h))
        (λ j b h. (b, h)) (λ b h. (b, h))

  pick-clean :
      (b c : Bool) (p : Package N S) (before after : Records)
      → has_error before ≡ b
      → has_error after ≡ c
      → let r : Option (Package N S) × Records =
          if b then (none, before) else if c then (none, after) else (some p, after) in
        has_error (r.1) ≡ false
        → ((r.0) ≡ some p) × (has_error before ≡ false) × (has_error after ≡ false)
  pick-clean true c p before after e f h = absurd (let g = h in cc)
  pick-clean false true p before after e f h = absurd (let g = h in cc)
  pick-clean false false p before after e f h = (refl, e, h)

  resolve_package-clean :
      (text : Str → Block N → Str) (p : Package N S) (rs : Records)
      → p.is_mixin ≡ false
      → has_error (resolve_package text p rs) ≡ false
      → (all_blocks_follow p (st.list_entries (p.blocks)) ≡ true)
        × All (IsConfigured p) (list_blocks {N = N} provider_check_options (p.blocks))
  unfolding resolve_package resolve_resource_to_provider_config
  resolve_package-clean text p rs root h =
      let rs' = resolve_dag_dependencies text p rs in
      let checked : resolve_package text p rs ≡ resolve_resource_to_provider_config text p rs' =
        rw (resolve_package, root) refl in
      let (g, configured) =
        resolve_providers-has_error text p (list_blocks provider_check_options (p.blocks)) rs'
          (ap has_error (sym checked) ∙ h) in
      (ground (arith, resolve_dag_dependencies-has_error text p rs), configured)

  finish_package_parse-clean :
      (yaml_of : N → Yaml) (text : Str → Block N → Str) (t : Intake N S) (p : Package N S)
      → t.pkg ≡ some p
      → p.is_mixin ≡ false
      → has_error ((finish_package_parse yaml_of text t).1) ≡ false
      → let p' = add_dependencies yaml_of p in
        (((finish_package_parse yaml_of text t).0) ≡ some p')
        × (has_error (t.records) ≡ false)
        × (all_blocks_follow p' (st.list_entries (p'.blocks)) ≡ true)
        × All (IsConfigured p') (list_blocks {N = N} provider_check_options (p'.blocks))
  unfolding finish_package_parse
  finish_package_parse-clean yaml_of text t p e root h =
      let p' = add_dependencies yaml_of p in
      let rs = resolve_package text p' (t.records) in
      let r : Option (Package N S) × Records =
        if has_error (t.records)
        then (none, t.records)
        else if has_error rs
        then (none, rs)
        else (some p', rs) in
      let made : finish_package_parse yaml_of text t ≡ r = rw (e, finish_package_parse) refl in
      let (f, quiet, g) =
        pick-clean (has_error (t.records)) (has_error rs) p' (t.records) rs refl refl
          (ap (λ z. has_error (z.1)) (sym made) ∙ h) in
      let root' = (add_dependencies-KeepsNames yaml_of p).mixin_kept ∙ root in
      let (follow, configured) = resolve_package-clean text p' (t.records) root' g in
      (ap (λ z. z.0) made ∙ f, quiet, follow, configured)

  -- The package is there, its providers have configurations, its dependencies can be followed, and
  -- the graphs are made from it.
  abbrev pub Sound : Order → ℕ → Str → Package N S → Parsed N S → Type (ℓ ⊔ κ)
  Sound ord fuel file p out =
      (out.root_pkg ≡ some p)
      × ((names : List Str) × (get_provider_configs p ≡ some names)
          × (out.provider_graph ≡ generate_dag ord fuel file true names p))
      × (out.package_graph ≡ generate_dag ord fuel file false [] p)

  make_graphs-Sound :
      (ord : Order) (fuel : ℕ) (file : Str) (p : Package N S) (rs : Records) (names : List Str)
      → get_provider_configs p ≡ some names
      → Sound ord fuel file p (make_graphs ord fuel file p rs)
  unfolding make_graphs
  make_graphs-Sound ord fuel file p rs names h =
      (refl, (names, h, ap (λ o. generate_dag ord fuel file true (or_nil o) p) h), refl)

  chosen-clean :
      (b : Bool) (ord : Order) (fuel : ℕ) (file : Str) (q : Package N S) (rs : Records)
      → has_error rs ≡ b
      → has_error
          ((if b then stopped (some q) rs else make_graphs ord fuel file q rs).parse_records)
        ≡ false
      → (has_error rs ≡ false)
        × ((if b then stopped (some q) rs else make_graphs ord fuel file q rs)
            ≡ make_graphs ord fuel file q rs)
  unfolding make_graphs
  chosen-clean true ord fuel file q rs e h = absurd (let g = h in cc)
  chosen-clean false ord fuel file q rs e h = (e, refl)

  parse_after_package-clean :
      (ord : Order) (fuel : ℕ) (file key : Str) (o : Option (Package N S)) (rs : Records)
      (out : Parsed N S)
      → parse_after_package ord fuel file key (o, rs) ≡ some out
      → has_error (out.parse_records) ≡ false
      → (has_error rs ≡ false) × ((p : Package N S) → o ≡ some p → Sound ord fuel file p out)
  unfolding parse_after_package
  parse_after_package-clean ord fuel file key none rs out h g =
      (subst (λ z. has_error (z.parse_records) ≡ false) (sym (some-injective _ _ h)) g, λ p e. cc)
  parse_after_package-clean ord fuel file key (some q) rs out h g =
      elim (Option-cases (validate_package key q rs)) [
        | inl e ↦
            let made : parse_after_package ord fuel file key (some q, rs) ≡ none =
              rw (parse_after_package, e) refl in
            cc
        | inr (rs', e) ↦
            let made : parse_after_package ord fuel file key (some q, rs)
                ≡ some (
                    if has_error rs'
                    then stopped (some q) rs'
                    else make_graphs ord fuel file q rs') =
              rw (parse_after_package, e) refl in
            let same = some-injective _ _ (sym made ∙ h) in
            let (clean, chosen) =
              chosen-clean (has_error rs') ord fuel file q rs' refl
                (subst (λ z. has_error (z.parse_records) ≡ false) (sym same) g) in
            let (clean', (names, found)) = validate_package-clean key q rs rs' e clean in
            (
              clean',
              λ p f. subst (Sound ord fuel file p) (sym chosen ∙ same) (
                  subst (λ z. Sound ord fuel file z (make_graphs ord fuel file q rs'))
                    (some-injective q p f) (make_graphs-Sound ord fuel file q rs' names found)),
            )
      ]

  -- A document whose package has no error has its place there.
  Settled-HasPlace :
      (c : Ctx N) (t : Intake N S) (p p' : Package N S)
      → t.pkg ≡ some p
      → has_error (t.records) ≡ false
      → KeepsNames p p'
      → Settled c t
      → HasPlace c p'
  Settled-HasPlace c t p p' e quiet n (inl h) = absurd (let g = h in cc)
  Settled-HasPlace c t p p' e quiet n (inr (q, f, there)) =
      let k = (with_kind c).ctx_block_type in
      let same = some-injective q p (sym f ∙ e) in
      let (b, g) = subst (HasPlace c) same there in
      n.entries_kept (place_of k) (target_name k (with_kind c)) b g

  -- Under every schedule of the goroutines: a parse that ends without an error and without a panic
  -- has read a root package in which every document has its block, its provider configuration or
  -- the backend; its blocks can follow all of their dependencies, each block that asks for a
  -- provider finds a configuration, and its two graphs are those of this package.
  pub parse_kform-Sound :
      (ord : Order) (fuel : ℕ) (file key : Str) (yaml_of : N → Yaml) (text : Str → Block N → Str)
      (name : Str) (empty : S) (schedule : List ℕ) (cs : List (Ctx N)) (out : Parsed N S)
      → parse_kform ord fuel file key yaml_of text name empty schedule cs ≡ some out
      → has_error (out.parse_records) ≡ false
      → (p : Package N S) × Sound ord fuel file p out
        × (p.is_mixin ≡ false)
        × All (λ c. HasPlace c p) cs
        × (all_blocks_follow p (st.list_entries (p.blocks)) ≡ true)
        × All (IsConfigured p) (list_blocks {N = N} provider_check_options (p.blocks))
  unfolding parse_kform parse_package_documents
  parse_kform-Sound ord fuel file key yaml_of text name empty schedule cs out h g =
      let start : Intake N S = record { pkg = some (new_package name empty); records = [] } in
      let r = run_tasks schedule (start_tasks cs) start in
      let fin = finish_package_parse yaml_of text (r.1) in
      elim (Bool-cases (all_ended (r.0))) [
        | inr e ↦
            let made : parse_kform ord fuel file key yaml_of text name empty schedule cs ≡ none =
              rw (parse_kform, parse_package_documents, e) refl in
            cc
        | inl e ↦
            let made : parse_kform ord fuel file key yaml_of text name empty schedule cs
                ≡ parse_after_package ord fuel file key fin =
              rw (parse_kform, parse_package_documents, e) refl in
            let (keeps, settled) = run_tasks-Settled schedule cs start e in
            let (q, f, n) = keeps.pkg_kept (new_package name empty) refl in
            let p = add_dependencies yaml_of q in
            let (clean, sound) =
              parse_after_package-clean ord fuel file key (fin.0) (fin.1) out (sym made ∙ h) g in
            let (f', quiet, follow, configured) =
              finish_package_parse-clean yaml_of text (r.1) q f n.mixin_kept clean in
            let more = add_dependencies-KeepsNames yaml_of q in
            (
              p,
              sound p f',
              more.mixin_kept ∙ n.mixin_kept,
              All-mono (λ c. Settled c (r.1)) (λ c. HasPlace c p) cs
                  (λ c. Settled-HasPlace c (r.1) q p f quiet more) settled,
              follow,
              configured,
            )
      ]
