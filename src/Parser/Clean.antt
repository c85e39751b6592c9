-- ===== src/Parser/Clean.antt =====
-- What the checks of the parser promise, if they record no error.
use mathlib.Core.Option.{some-injective}
use kform.Shared.{
  Bool, List, List-cases, Option, Option-cases, Storer, Str, [], arith, contains, false,
  if◌then◌else◌, inl, inr, keys, none, not, refl, some, split, str, str_eq, subst, sym, true, ◌==◌,
  ◌||◌, ◌∙◌, ◌∷◌, ◌≡◌,
}
use kform.Package.Blocks.{Block}
use kform.Package.Intake.{Package, dot, dotted}
use kform.Package.Listing.{list_blocks, list_providers_from_resources}
use kform.Package.Nodes.{Nodes}
use kform.Parser.Checks.{
  all_blocks, config_names, get_provider_configs, has_backend, has_block, mixin_prefix,
  pkg_dependencies_of, record_unless, require_configs, require_mixins, require_output,
  require_outputs, unreferenced, used_configs, validate_backend, validate_mixins,
  validate_provider_configs, validate_unreferenced_configs,
}
use kform.Parser.Parse.{validate_package}
use kform.Recorder.{
  Detail, Diagnostic, Records, diag_errorf, diag_warnf_with_context, has_error, has_error-append,
  mixin_not_found, no_backend, no_provider_config, output_not_found, record_diag,
  unreferenced_configs,
}

record_unless-has_error :
    (there : Bool) (m : Detail) (rs : Records)
    → has_error (record_unless there m rs) ≡ (has_error rs || not there)
unfolding record_unless has_error
record_unless-has_error true m rs = ground arith
record_unless-has_error false m rs = ground (arith, has_error-append rs (diag_errorf m ∷ []))

require_configs-has_error :
    (configs ns : List Str) (rs : Records)
    → has_error (require_configs configs ns rs) ≡ false
    → (has_error rs ≡ false) × (used_configs configs ns ≡ some ns)
unfolding require_configs used_configs
require_configs-has_error configs [] rs h = (h, refl)
require_configs-has_error configs (n ∷ ns) rs h =
    let there = contains configs n in
    let rs' = record_unless there (no_provider_config n) rs in
    let (f, g) = require_configs-has_error configs ns rs' h in
    let unless = record_unless-has_error there (no_provider_config n) rs in
    (ground (arith, unless), ground (arith, unless))

require_mixins-has_error :
    (key : Str) (ns : List Str) (rs : Records)
    → has_error (require_mixins key ns rs) ≡ false
    → has_error rs ≡ false
unfolding require_mixins
require_mixins-has_error key [] rs h = h
require_mixins-has_error key (n ∷ ns) rs h =
    let rs' = record_unless (n == key) (mixin_not_found n) rs in
    let f = require_mixins-has_error key ns rs' h in
    ground (arith, record_unless-has_error (n == key) (mixin_not_found n) rs)

configs-clean :
    (b : Bool) (configs ns : List Str) (rs : Records)
    → has_error (if b then rs else require_configs configs ns rs) ≡ false
    → (has_error rs ≡ false)
      × ((names : List Str) × ((if b then some [] else used_configs configs ns) ≡ some names))
configs-clean true configs ns rs h = (h, ([], refl))
configs-clean false configs ns rs h =
    let (f, g) = require_configs-has_error configs ns rs h in (f, (ns, g))

pub recorded-clean {ℓ} :
    {A : Type ℓ} (o : Option A) (d : Diagnostic) (rs : Records)
    → has_error (elim o as (λ _. Records) [ some _ ↦ rs | none ↦ record_diag d rs ]) ≡ false
    → has_error rs ≡ false
recorded-clean (some a) d rs h = h
recorded-clean none d rs h = ground (arith, has_error-append rs (d ∷ []))

module _ {ℓ κ} {N : Type ℓ} {S : Type κ} ⦃y : Nodes N⦄ ⦃st : Storer (Block N) S⦄ where
  require_output-has_error :
      (key : Str) (mixins : List Str) (p : Package N S) (parts : List Str) (rs rs' : Records)
      → require_output key mixins p parts rs ≡ some rs'
      → has_error rs' ≡ false
      → has_error rs ≡ false
  unfolding require_output
  require_output-has_error key mixins p [] rs rs' h g = cc
  require_output-has_error key mixins p (a ∷ []) rs rs' h g = cc
  require_output-has_error key mixins p (a ∷ b ∷ []) rs rs' h g = cc
  require_output-has_error key mixins p (a ∷ b ∷ c ∷ _) rs rs' h g =
      let name = dotted a b in
      let out = dotted (str "output") c in
      let one = record_unless (contains mixins name) (mixin_not_found name) rs in
      ground (
        arith,
        record_unless-has_error (contains mixins name) (mixin_not_found name) rs,
        record_unless-has_error (has_block p out) (output_not_found out) one,
      )

  require_outputs-has_error :
      (key : Str) (mixins : List Str) (p : Package N S) (ds : List Str) (rs rs' : Records)
      → require_outputs key mixins p ds rs ≡ some rs'
      → has_error rs' ≡ false
      → has_error rs ≡ false
  unfolding require_outputs
  require_outputs-has_error key mixins p [] rs rs' h g =
      subst (λ z. has_error z ≡ false) (sym (some-injective _ _ h)) g
  require_outputs-has_error key mixins p (d ∷ ds) rs rs' h g =
      elim (Option-cases (require_output key mixins p (split dot d) rs)) [
        | inl e ↦
            let made : require_outputs key mixins p (d ∷ ds) rs ≡ none =
              rw (require_outputs, e) refl in
            cc
        | inr (one, e) ↦
            let made : require_outputs key mixins p (d ∷ ds) rs
                ≡ require_outputs key mixins p ds one =
              rw (require_outputs, e) refl in
            require_output-has_error key mixins p (split dot d) rs one e
              (require_outputs-has_error key mixins p ds one rs' (sym made ∙ h) g)
      ]

  validate_unreferenced-has_error :
      (p : Package N S) (rs : Records)
      → has_error (validate_unreferenced_configs p rs) ≡ has_error rs
  unfolding validate_unreferenced_configs has_error
  validate_unreferenced-has_error p rs = elim (List-cases (unreferenced p)) [
    | inl e ↦ rw (e, validate_unreferenced_configs) refl
    | inr (n, ns, e) ↦
        rw (e, validate_unreferenced_configs)
          (ground (
            arith,
            has_error-append rs (diag_warnf_with_context [] (unreferenced_configs (n ∷ ns)) ∷ []),
          ))
  ]

  pub validate_package-clean :
      (key : Str) (p : Package N S) (rs rs' : Records)
      → validate_package key p rs ≡ some rs'
      → has_error rs' ≡ false
      → (has_error rs ≡ false) × ((names : List Str) × (get_provider_configs p ≡ some names))
  unfolding validate_package validate_mixins validate_backend validate_provider_configs
      get_provider_configs
  validate_package-clean key p rs rs' h g =
      let checked_configs = validate_provider_configs p rs in
      elim (Option-cases (validate_mixins key p checked_configs)) [
        | inl e ↦ let made : validate_package key p rs ≡ none = rw (validate_package, e) refl in cc
        | inr (one, e) ↦
            let two = validate_unreferenced_configs p one in
            let made : validate_package key p rs ≡ some (validate_backend p two) =
              rw (validate_package, e) refl in
            let last : has_error (validate_backend p two) ≡ false =
              subst (λ z. has_error z ≡ false) (sym (some-injective _ _ (sym made ∙ h))) g in
            let backend = record_unless-has_error (has_backend p) no_backend two in
            let same = validate_unreferenced-has_error p one in
            let good : has_error one ≡ false = ground arith in
            let mixins = keys (list_blocks {N = N} mixin_prefix (p.blocks)) in
            let outputs = pkg_dependencies_of (list_blocks {N = N} all_blocks (p.blocks)) in
            let start = require_mixins-has_error key mixins checked_configs (
              require_outputs-has_error key mixins p outputs
                (require_mixins key mixins checked_configs) one e good) in
            configs-clean (p.is_mixin) (config_names p) (list_providers_from_resources p) rs start
      ]
