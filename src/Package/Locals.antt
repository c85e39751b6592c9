-- ===== src/Package/Locals.antt =====
-- pkg/syntax/types/bt_local.go over several documents.
use kform.Shared.{
  Bool, Bool-cases, List, Option, Option-cases, Storer, Str, [], ap, arith, eq_iff, false,
  if◌then◌else◌, inl, inr, none, refl, some, str_eq, sym, true, ◌++◌, ◌==◌, ◌||◌, ◌∙◌, ◌∷◌, ◌≡◌,
  ◌⊎◌,
}
use kform.Package.Blocks.{Block, Ctx, new_block}
use kform.Package.Intake.{
  Intake, Package, block_name_of, create_block, create_once, duplicate, local_annotations,
  on_blocks, with_package,
}
use kform.Package.Nodes.{Nodes}
use kform.Package.Update.{local_update}
use kform.Package.Validator.{validate_annotations, validate_annotations-has_error}
use kform.Recorder.{Records, has_error, has_error-append}

module _ {ℓ} {N : Type ℓ} ⦃y : Nodes N⦄ where
  -- Is there a document whose name is the name of a block, or of a document before it?
  unfoldable pub clash : (Str → Option (Block N)) → List (Ctx N) → Bool
  clash taken [] = false
  clash taken (c ∷ cs) =
      let name = block_name_of c in
      let rest = clash (λ j. if name == j then some (new_block c name) else taken j) cs in
      elim (taken name) [ some b ↦ true | none ↦ rest ]

  -- The block of the first document of a name, where there is no block of that name yet.
  unfoldable pub first_of : Option (Block N) → Str → List (Ctx N) → Option (Block N)
  first_of (some b) name cs = some b
  first_of none name [] = none
  first_of none name (c ∷ cs) =
      let rest = first_of none name cs in
      if block_name_of c == name then some (new_block c (block_name_of c)) else rest

  first_of-nil : (o : Option (Block N)) (name : Str) → first_of o name [] ≡ o
  unfolding first_of
  first_of-nil none name = refl
  first_of-nil (some b) name = refl

  clash-nil :
      (rs : Records) (f : Str → Option (Block N)) → has_error rs ≡ (has_error rs || clash f [])
  unfolding clash
  clash-nil rs f = ground arith

  clash_ext :
      (f g : Str → Option (Block N)) (cs : List (Ctx N))
      → ((j : Str) → f j ≡ g j)
      → clash f cs ≡ clash g cs
  unfolding clash
  clash_ext f g [] same = refl
  clash_ext f g (c ∷ cs) same = ground (
    arith,
    same (block_name_of c),
    clash_ext (λ j. if block_name_of c == j then some (new_block c (block_name_of c)) else f j)
        (λ j. if block_name_of c == j then some (new_block c (block_name_of c)) else g j) cs
        (λ j. ground (arith, same j)),
  )

  first_of-cons :
      (o : Option (Block N)) (name : Str) (c : Ctx N) (cs : List (Ctx N))
      → first_of (first_of o name (c ∷ [])) name cs ≡ first_of o name (c ∷ cs)
  unfolding first_of
  first_of-cons (some b) name c cs = refl
  first_of-cons none name c cs = elim (Bool-cases (block_name_of c == name)) [
    | inl e ↦ ground arith
    | inr e ↦ ground arith
  ]

  -- When a name is taken, the document changes nothing, and its name was taken before.
  clash-cons :
      (f g : Str → Option (Block N)) (c : Ctx N) (cs : List (Ctx N))
      → ((j : Str) → g j ≡ first_of (f j) j (c ∷ []))
      → clash f (c ∷ cs) ≡ (clash f (c ∷ []) || clash g cs)
  unfolding clash first_of
  clash-cons f g c cs steps =
      let made =
        λ (j : Str). if block_name_of c == j then some (new_block c (block_name_of c)) else f j in
      elim (Option-cases (f (block_name_of c))) [
        | inl free ↦ ground (
          arith,
          clash_ext made g cs (λ j. elim (Option-cases (f j)) [
            | inl e ↦ ground (arith, steps j)
            | inr (b, e) ↦ ground (arith, steps j, eq_iff (block_name_of c) j)
          ]),
        )
        | inr (b, taken) ↦ ground arith
      ]

module _ {ℓ κ} {N : Type ℓ} ⦃y : Nodes N⦄ {S : Type κ} ⦃st : Storer (Block N) S⦄ where
  unfoldable pub take_locals : List (Ctx N) → Intake N S → Intake N S
  unfolding local_update
  take_locals [] t = t
  take_locals (c ∷ cs) t = take_locals cs (local_update c t)

  -- One document: either the name is taken, and an error is recorded, or the block is made.
  pub create_once_lem :
      (c : Ctx N) (name : Str) (s : S) (rs : Records)
      → ((b : Block N) × (st.get_entry name s ≡ some b)
          × (create_once c name s rs ≡ (s, rs ++ duplicate c b ∷ [])))
        ⊎ ((s' : S) × (st.get_entry name s ≡ none)
            × (create_once c name s rs ≡ (s', rs))
            × ((j : Str)
                → st.get_entry j s'
                  ≡ (if name == j then some (new_block c name) else st.get_entry j s)))
  unfolding create_once create_block
  create_once_lem c name s rs = elim (Option-cases (st.get_entry name s)) [
    | inl e ↦
        let made = st.create-free name (new_block c name) s e in
        inr (made.0, e, ground arith, made.2)
    | inr (b, e) ↦ inl (b, e, ground arith)
  ]

  local_update-get :
      (c : Ctx N) (p : Package N S) (rs : Records)
      → (p' : Package N S) × (rs' : Records) × (local_update c
            (record { pkg = some p; records = rs })
          ≡ record { pkg = some p'; records = rs' })
        × ((j : Str) → st.get_entry j p'.blocks ≡ first_of (st.get_entry j p.blocks) j (c ∷ []))
        × (has_error rs' ≡ (has_error rs || clash (λ j. st.get_entry j p.blocks) (c ∷ [])))
  unfolding local_update with_package on_blocks first_of clash has_error duplicate
  local_update-get c p rs =
      let rs0 = validate_annotations local_annotations c rs in
      let name = block_name_of c in
      let checks = validate_annotations-has_error local_annotations c rs in
      let r = create_once c name p.blocks rs0 in
      elim (create_once_lem c name p.blocks rs0) [
        | inl (b, taken, made) ↦ (
          record p { blocks = r.0 },
          r.1,
          refl,
          (λ j. elim (Option-cases (st.get_entry j p.blocks)) [
            | inl e ↦ ground (arith, eq_iff name j)
            | inr (b', e) ↦ ground arith
          ]),
          ground (arith, checks, has_error-append rs0 (duplicate c b ∷ [])),
        )
        | inr (s', free, made, reads) ↦ (
          record p { blocks = r.0 },
          r.1,
          refl,
          (λ j. elim (Option-cases (st.get_entry j p.blocks)) [
            | inl e ↦ ground (arith, eq_iff name j, reads j)
            | inr (b', e) ↦ ground (arith, eq_iff name j, reads j)
          ]),
          ground (arith, checks),
        )
      ]

  -- Whatever documents the locals of a package are made of: under each name stands the block that was there, or
  -- else that of the first document of the name; and an error is new exactly if a document has the
  -- name of a block or of an earlier document.
  pub take_locals_lem :
      (cs : List (Ctx N)) (p : Package N S) (rs : Records)
      → (p' : Package N S) × (rs' : Records) × (take_locals cs
            (record { pkg = some p; records = rs })
          ≡ record { pkg = some p'; records = rs' })
        × ((name : Str)
            → st.get_entry name p'.blocks ≡ first_of (st.get_entry name p.blocks) name cs)
        × (has_error rs' ≡ (has_error rs || clash (λ j. st.get_entry j p.blocks) cs))
  unfolding take_locals
  take_locals_lem [] p rs =
      (p, rs, refl, (λ name. sym (first_of-nil (st.get_entry name p.blocks) name)), clash-nil rs _)
  take_locals_lem (c ∷ cs) p rs =
      let one = local_update-get c p rs in
      let more = take_locals_lem cs one.0 one.1 in
      (
        more.0,
        more.1,
        ap (take_locals cs) one.2 ∙ more.2,
        (λ name.
            ground (
              arith,
              one.3 name,
              more.3 name,
              first_of-cons (st.get_entry name p.blocks) name c cs,
            )),
        ground (
          arith,
          one.4,
          more.4,
          clash-cons (λ j. st.get_entry j p.blocks) (λ j. st.get_entry j (one.0).blocks) c cs one.3,
        ),
      )
