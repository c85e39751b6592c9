-- ===== src/Package/Growth.antt =====
-- pkg/syntax/types/bt_*.go: what every `UpdatePackage` keeps.
use mathlib.Core.List.{append-nil}
use mathlib.Core.Option.{some-injective}
use kform.Shared.{
  Bool-cases, List, Option-cases, Storer, Str, [], ap, arith, eq_iff, inl, inr, none, refl, some,
  str_eq, subst, sym, true, ◌++◌, ◌==◌, ◌∙◌, ◌∷◌, ◌≡◌,
}
use kform.Package.BlockTypes.{BlockType, list_block}
use kform.Package.Blocks.{Block, Ctx, add_data, new_block}
use kform.Package.Intake.{
  Intake, Package, append_data, block_name_of, create_block, create_once, duplicate, on_blocks,
  on_configs,
}
use kform.Package.Nodes.{Nodes}
use kform.Package.Update.{backend_block, input_block, list_duplicate, resource_block}
use kform.Recorder.{
  Diagnostic, Records, block_without_node, diag_from_err, diag_from_err_with_context, has_error,
  has_error-append, is_error, more_than_one_backend, record_diag,
}

-- A block that got further documents, and is the same otherwise.
pub record Extends {ℓ} {N : Type ℓ} (b b' : Block N) : Type ℓ where
  pub more : List N
  pub data_kept : b'.block_data ≡ b.block_data ++ more
  pub attributes_kept : b'.attributes ≡ b.attributes
  pub type_kept : b'.block_type ≡ b.block_type
  pub name_kept : b'.block_name ≡ b.block_name
  pub files_kept : b'.file_names ≡ b.file_names
  pub index_kept : b'.index ≡ b.index
  pub package_name_kept : b'.package_name ≡ b.package_name
  pub dependencies_kept : b'.dependencies ≡ b.dependencies
  pub pkg_dependencies_kept : b'.pkg_dependencies ≡ b.pkg_dependencies

Extends-refl {ℓ} : {N : Type ℓ} (b : Block N) → Extends b b
Extends-refl b = record {
  more = [];
  data_kept = sym (append-nil b.block_data);
  attributes_kept = refl;
  type_kept = refl;
  name_kept = refl;
  files_kept = refl;
  index_kept = refl;
  package_name_kept = refl;
  dependencies_kept = refl;
  pkg_dependencies_kept = refl;
}

Extends-appended {ℓ} :
    {N : Type ℓ} (b : Block N) (n : N)
    → Extends b (record b { block_data = b.block_data ++ n ∷ [] })
Extends-appended b n = record {
  more = n ∷ [];
  data_kept = refl;
  attributes_kept = refl;
  type_kept = refl;
  name_kept = refl;
  files_kept = refl;
  index_kept = refl;
  package_name_kept = refl;
  dependencies_kept = refl;
  pkg_dependencies_kept = refl;
}

-- No error is taken back.
abbrev pub Louder : Records → Records → Type 0
Louder rs rs' = has_error rs ≡ true → has_error rs' ≡ true

-- The recorder holds an error after one is recorded.
pub error_recorded :
    (d : Diagnostic) (rs : Records) → is_error d ≡ true → has_error (record_diag d rs) ≡ true
unfolding has_error
error_recorded d rs h = ground (arith, has_error-append rs (d ∷ []))

pub record_diag-Louder : (d : Diagnostic) (rs : Records) → Louder rs (record_diag d rs)
record_diag-Louder d rs h = ground (arith, has_error-append rs (d ∷ []))

module _ {ℓ κ} {N : Type ℓ} {S : Type κ} (st : Storer (Block N) S) where
  -- Every block of a store stands under its name in the other one, and extends there.
  abbrev pub Grows : S → S → Type ℓ
  Grows s s' =
      (name : Str) (b : Block N)
      → st.get_entry name s ≡ some b
      → (b' : Block N) × (st.get_entry name s' ≡ some b') × Extends b b'

  Grows-refl : (s : S) → Grows s s
  Grows-refl s name b e = (b, e, Extends-refl b)

  pub record IsUnharmed (p p' : Package N S) : Type ℓ where
    pub blocks_grow : Grows p.blocks p'.blocks
    pub configs_grow : Grows p.provider_configs p'.provider_configs
    pub backend_kept : (b : Block N) → p.pkg_backend ≡ some b → p'.pkg_backend ≡ some b

  -- What a part of a handler does to a store and the records, from any state.
  abbrev pub Part : (S → Records → S × Records) → Type (ℓ ⊔ κ)
  Part f = (s : S) (rs : Records) → Grows s ((f s rs).0) × Louder rs ((f s rs).1)

  -- What a part of a handler does to a package and the records.
  abbrev pub PackagePart : (Package N S → Records → Package N S × Records) → Type (ℓ ⊔ κ)
  PackagePart f =
      (p : Package N S) (rs : Records) → IsUnharmed p ((f p rs).0) × Louder rs ((f p rs).1)

  -- What a handler does.
  pub record Handled (t t' : Intake N S) : Type (ℓ ⊔ κ) where
    pub package_kept :
        (p : Package N S)
        → t.pkg ≡ some p
        → (p' : Package N S) × (t'.pkg ≡ some p') × IsUnharmed p p'
    pub without : t.pkg ≡ none → (t'.pkg ≡ none) × (has_error t'.records ≡ true)
    pub errors_kept : Louder t.records t'.records

module _ {ℓ} {N : Type ℓ} ⦃y : Nodes N⦄ where
  pub list_duplicate-Louder :
      (t : BlockType) (c : Ctx N) (b : Block N) (rs : Records) → Louder rs (list_duplicate t c b rs)
  unfolding list_duplicate
  list_duplicate-Louder list_block c b rs h = record_diag-Louder (duplicate c b) rs h
  list_duplicate-Louder _ c b rs h = h

module _ {ℓ κ} {N : Type ℓ} ⦃y : Nodes N⦄ {S : Type κ} ⦃st : Storer (Block N) S⦄ where
  pub IsKept_refl : (p : Package N S) → IsUnharmed st p p
  IsKept_refl p = record {
    blocks_grow = Grows-refl st p.blocks;
    configs_grow = Grows-refl st p.provider_configs;
    backend_kept = λ b h. h;
  }

  pub create_block-Grows :
      (c : Ctx N) (name : Str) (s : S) (rs : Records)
      → Grows st s ((create_block c name s rs).0) × Louder rs ((create_block c name s rs).1)
  unfolding create_block
  create_block-Grows c name s rs = elim (Option-cases (st.get_entry name s)) [
    | inl free ↦
        let made = st.create-free name (new_block c name) s free in
        (
          (λ j b e. (b, ground (arith, made.1, made.2 j, eq_iff name j), Extends-refl b)),
          (λ h. ground (arith, made.1)),
        )
    | inr (b, e) ↦
        let refused = st.create-taken name (new_block c name) b s e in
        (
          (λ j a h. (a, ground (arith, refused), Extends-refl a)),
          (λ h. ground (arith, refused, has_error-append rs (duplicate c (new_block c name) ∷ []))),
        )
  ]

  same_entry :
      (name j : Str) (b a : Block N) (s : S)
      → (name == j) ≡ true
      → st.get_entry name s ≡ some b
      → st.get_entry j s ≡ some a
      → b ≡ a
  same_entry name j b a s same h g =
      some-injective b a (sym h ∙ ap (λ k. st.get_entry k s) ((eq_iff name j).0 same) ∙ g)

  append_data-Grows :
      (c : Ctx N) (name : Str) (b : Block N) (s : S) (rs : Records)
      → st.get_entry name s ≡ some b
      → Grows st s ((append_data c name b s rs).0) × Louder rs ((append_data c name b s rs).1)
  unfolding append_data add_data
  append_data-Grows c name b s rs found =
      let b' : Block N = record b { block_data = b.block_data ++ c.node ∷ [] } in
      elim (Bool-cases (y.is_nil c.node)) [
        | inl e ↦ (
          (λ j a h. (a, ground arith, Extends-refl a)),
          (λ h. ground (arith, has_error-append rs (diag_from_err block_without_node ∷ []))),
        )
        | inr e ↦ (
          (λ j a h. elim (Bool-cases (name == j)) [
            | inl same ↦ (
              b',
              ground (arith, st.get-update name j b' s),
              subst (λ x. Extends x b') (same_entry name j b a s same found h)
                  (Extends-appended b c.node),
            )
            | inr apart ↦ (a, ground (arith, st.get-update name j b' s), Extends-refl a)
          ]),
          (λ h. ground arith),
        )
      ]

  pub create_once-Grows : (c : Ctx N) (name : Str) → Part st (create_once c name)
  unfolding create_once
  create_once-Grows c name s rs = elim (Option-cases (st.get_entry name s)) [
    | inl e ↦ rw (create_once, e) (create_block-Grows c name s rs)
    | inr (b, e) ↦ rw (create_once, e) (Grows-refl st s, record_diag-Louder (duplicate c b) rs)
  ]

  pub input_block-Grows : (c : Ctx N) (name : Str) → Part st (input_block c name)
  unfolding input_block
  input_block-Grows c name s rs = elim (Option-cases (st.get_entry name s)) [
    | inl e ↦ rw (input_block, e) (create_block-Grows c name s rs)
    | inr (b, e) ↦ rw (input_block, e) (append_data-Grows c name b s rs e)
  ]

  pub resource_block-Grows : (c : Ctx N) (name : Str) → Part st (resource_block c name)
  unfolding resource_block
  resource_block-Grows c name s rs = elim (Option-cases (st.get_entry name s)) [
    | inl e ↦ rw (resource_block, e) (create_block-Grows c name s rs)
    | inr (b, e) ↦
        let loud = record_diag-Louder (duplicate c b) rs in
        let g = append_data-Grows c name b s (list_duplicate c.ctx_block_type c b rs) e in
        rw (resource_block, e) (g.0, λ h. g.1 (list_duplicate-Louder c.ctx_block_type c b rs h))
  ]

  pub on_blocks-IsUnharmed :
      (f : S → Records → S × Records) → Part st f → PackagePart st (on_blocks f)
  unfolding on_blocks
  on_blocks-IsUnharmed f part p rs =
      let g = part p.blocks rs in
      (
        record {
          blocks_grow = g.0;
          configs_grow = Grows-refl st p.provider_configs;
          backend_kept = λ b e. e;
        },
        g.1,
      )

  pub on_configs-IsUnharmed :
      (f : S → Records → S × Records) → Part st f → PackagePart st (on_configs f)
  unfolding on_configs
  on_configs-IsUnharmed f part p rs =
      let g = part p.provider_configs rs in
      (
        record {
          blocks_grow = Grows-refl st p.blocks;
          configs_grow = g.0;
          backend_kept = λ b e. e;
        },
        g.1,
      )

  pub backend_block-IsUnharmed : (c : Ctx N) → PackagePart st (backend_block c)
  unfolding backend_block create_block
  backend_block-IsUnharmed c p rs = elim (Option-cases p.pkg_backend) [
    | inl e ↦
        let g = create_block-Grows c (block_name_of c) p.blocks rs in
        rw e (
          record {
            blocks_grow = g.0;
            configs_grow = Grows-refl st p.provider_configs;
            backend_kept = λ b h. ground arith;
          },
          g.1,
        )
    | inr (b, e) ↦ rw e (
      record {
        blocks_grow = Grows-refl st p.blocks;
        configs_grow = Grows-refl st p.provider_configs;
        backend_kept = λ b h. h;
      },
      record_diag-Louder (diag_from_err_with_context c.context_text more_than_one_backend) rs,
    )
  ]
