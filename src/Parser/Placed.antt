-- ===== src/Parser/Placed.antt =====
-- What every schedule of the goroutines of pkgparser/validator.go leaves: a document whose goroutine
-- has ended stands in the package under its name, or there is an error.

use kform.Shared.{
  Bool-cases, Option, Option-cases, Storer, Str, inl, inr, none, refl, some, true, ◌∙◌, ◌≡◌, ◌⊎◌,
}
use kform.Package.Blocks.{Block, Ctx}
use kform.Package.Growth.{Louder, error_recorded}
use kform.Package.Intake.{Intake, Package, checked}
use kform.Package.Nodes.{Nodes, annotation_at, key_block_type}
use kform.Package.Validator.{Expected, validate_annotations, validate_annotations-has_error}
use kform.Parser.Tasks.{
  Place, Worker, at_end, check_document, entry_at, expected_of, is_unknown, kind_of_node, look,
  look_as, look_in, note_diag, place_of, syntax_error, takes_more, target_name, to_act, to_look,
  to_store, with_kind,
}
use kform.Recorder.{
  Diagnostic, Records, diag_errorf, diag_from_err_with_context, has_error, is_error, no_initializer,
  unknown_block_type, without_package,
}

abbrev pub IsThere {ℓ} : {A : Type ℓ} → Option A → Type ℓ
IsThere {A} o = (a : A) × (o ≡ some a)

module _ {ℓ} {N : Type ℓ} ⦃y : Nodes N⦄ where
  -- The document of a goroutine.
  abbrev pub origin : Worker N → Ctx N
  origin (to_look c) = c
  origin (to_act c seen) = c
  origin (to_store c b) = c
  origin (at_end c) = c

module _ {ℓ κ} {N : Type ℓ} {S : Type κ} ⦃y : Nodes N⦄ ⦃st : Storer (Block N) S⦄ where
  -- The package has a block, a configuration or the backend for the document.
  abbrev pub HasPlace : Ctx N → Package N S → Type ℓ
  HasPlace c p =
      let k = (with_kind c).ctx_block_type in
      IsThere (entry_at (place_of k) (target_name k (with_kind c)) p)

  -- No name is lost, and the kind of the package stays.
  pub record KeepsNames (p p' : Package N S) : Type ℓ where
    pub mixin_kept : p'.is_mixin ≡ p.is_mixin
    pub entries_kept :
        (pl : Place) (name : Str) (b : Block N)
        → entry_at pl name p ≡ some b
        → IsThere (entry_at pl name p')

  -- A step keeps an error, and the package.
  pub record Keeps (t t' : Intake N S) : Type (ℓ ⊔ κ) where
    pub louder : Louder (t.records) (t'.records)
    pub pkg_kept :
        (p : Package N S)
        → t.pkg ≡ some p
        → (p' : Package N S) × (t'.pkg ≡ some p') × KeepsNames p p'

  -- A document that is done with: there is an error, or it has its place.
  abbrev pub Settled : Ctx N → Intake N S → Type (ℓ ⊔ κ)
  Settled c t =
      (has_error (t.records) ≡ true) ⊎ ((p : Package N S) × (t.pkg ≡ some p) × HasPlace c p)

  abbrev pub IsFine : Worker N → Intake N S → Type (ℓ ⊔ κ)
  IsFine (at_end c) t = Settled c t
  IsFine (to_store c b) t = Unit {ℓ ⊔ κ} × (takes_more ((with_kind c).ctx_block_type) ≡ true)
  IsFine _ t = Unit

  pub KeepsNames-refl : (p : Package N S) → KeepsNames p p
  KeepsNames-refl p = record { mixin_kept = refl; entries_kept = λ pl name b h. (b, h) }

  pub KeepsNames-trans : (p q r : Package N S) → KeepsNames p q → KeepsNames q r → KeepsNames p r
  KeepsNames-trans p q r f g = record {
    mixin_kept = g.mixin_kept ∙ f.mixin_kept;
    entries_kept =
        λ pl name b h. let (b', h') = f.entries_kept pl name b h in g.entries_kept pl name b' h';
  }

  -- Records change neither the package nor the names.
  pub Keeps-records :
      (t : Intake N S) (rs : Records) → Louder (t.records) rs → Keeps t (record t { records = rs })
  Keeps-records t rs h = record { louder = h; pkg_kept = λ p e. (p, e, KeepsNames-refl p) }

  pub Settled-kept : (c : Ctx N) (t t' : Intake N S) → Keeps t t' → Settled c t → Settled c t'
  Settled-kept c t t' k (inl e) = inl (k.louder e)
  Settled-kept c t t' k (inr (p, e, (b, h))) =
      let (p', e', n) = k.pkg_kept p e in
      let kind = (with_kind c).ctx_block_type in
      inr (p', e', n.entries_kept (place_of kind) (target_name kind (with_kind c)) b h)

  -- What is promised of a step.
  abbrev pub IsGood : Ctx N → Intake N S → Worker N × Intake N S → Type (ℓ ⊔ κ)
  IsGood c t r = Keeps t (r.1) × IsFine (r.0) (r.1) × (origin (r.0) ≡ c)

  pub note_diag-IsGood :
      (c : Ctx N) (d : Diagnostic) (t0 t : Intake N S)
      → is_error d ≡ true
      → Keeps t0 t
      → IsGood c t0 (at_end c, note_diag d t)
  note_diag-IsGood c d t0 t h k = (
    record { louder = λ e. error_recorded d (t.records) h; pkg_kept = k.pkg_kept },
    inl (error_recorded d (t.records) h),
    refl,
  )

  look_in-IsGood : (c : Ctx N) (t0 t : Intake N S) → Keeps t0 t → IsGood c t0 (look_in c t)
  unfolding look_in
  look_in-IsGood c t0 t k = elim (Option-cases (t.pkg)) [
    | inl e ↦
        rw (look_in, e)
          (note_diag-IsGood c (diag_from_err_with_context (c.context_text) without_package) t0 t
            refl k)
    | inr (p, e) ↦ rw (look_in, e) (k, tt, refl)
  ]

  checked-Keeps :
      (expected : Expected) (c : Ctx N) (t : Intake N S) → Keeps t (checked expected c t)
  checked-Keeps expected c t =
      Keeps-records t (validate_annotations expected c (t.records))
        (λ h. validate_annotations-has_error expected c (t.records) ∙ h)

  check_document-IsGood :
      (expected : Expected) (c : Ctx N) (t : Intake N S) → IsGood c t (check_document expected c t)
  unfolding check_document
  check_document-IsGood expected c t =
      let k = (with_kind c).ctx_block_type in
      let t' = checked expected (with_kind c) t in
      let kept = checked-Keeps expected (with_kind c) t in
      elim (Option-cases (syntax_error k (with_kind c))) [
        | inl e ↦ rw (check_document, e) (look_in-IsGood c t t' kept)
        | inr (d, e) ↦
            rw (check_document, e)
              (note_diag-IsGood c (diag_from_err_with_context (c.context_text) d) t t' refl kept)
      ]

  look_as-IsGood : (o : Option Expected) (c : Ctx N) (t : Intake N S) → IsGood c t (look_as o c t)
  unfolding look_as
  look_as-IsGood none c t =
      note_diag-IsGood c (diag_errorf no_initializer) t t refl
        (Keeps-records t (t.records) (λ h. h))
  look_as-IsGood (some expected) c t = check_document-IsGood expected c t

  pub look-IsGood : (c : Ctx N) (t : Intake N S) → IsGood c t (look c t)
  unfolding look
  look-IsGood c t =
      let k = kind_of_node (c.node) in
      let text = annotation_at (y.annotations (c.node)) key_block_type in
      elim (Bool-cases (is_unknown k)) [
        | inl e ↦
            rw (look, e)
              (note_diag-IsGood c (diag_errorf (unknown_block_type text)) t t refl
                (Keeps-records t (t.records) (λ h. h)))
        | inr e ↦ rw (look, e) (look_as-IsGood (expected_of k) c t)
      ]
