-- ===== src/Parser/Tasks.antt =====
-- pkg/syntax/parser/pkgparser/validator.go: one goroutine for each document, over the handlers of
-- pkg/syntax/types/bt_*.go. The steps are the parts of a handler between two accesses of the stores
-- and of the data of a block; a record is part of the next step, as none is read before all
-- goroutines have ended. The goroutines share one context, so the file and the index of a document
-- are arbitrary.
use kform.Shared.{
  Bool, List, Option, Storer, Str, [], false, if◌then◌else◌, lookup, none, some, str_eq, suc, true,
  zero, ℕ, ◌∷◌,
}
use kform.Package.BlockTypes.{
  BlockType, backend, data_block, get_block_type, input, list_block, local, output, package_block,
  provider, resource, type_name, unknown,
}
use kform.Package.Blocks.{Block, Ctx, new_block}
use kform.Package.Intake.{
  Intake, Package, append_data, backend_annotations, block_name_of, checked, create_block, dotted,
  duplicate, input_annotations, local_annotations, mixin_annotations, name_of, on_blocks,
  on_configs, output_annotations, output_name_of, provider_annotations, resource_annotations,
  resource_name_of, resource_type_of, with_package,
}
use kform.Package.Nodes.{Nodes, annotation_at, key_block_type}
use kform.Package.Update.{list_duplicate}
use kform.Package.Validator.{Expected, validate_resource_syntax}
use kform.Recorder.{
  Detail, Diagnostic, Records, diag_errorf, diag_from_err_with_context, more_than_one_backend,
  no_initializer, record_diag, unknown_block_type, without_package,
}

-- The kind of block of a document, an output if it names none.
unfoldable pub kind_of_node {ℓ} : {N : Type ℓ} → ⦃y : Nodes N⦄ → N → BlockType
unfolding lookup get_block_type
kind_of_node ⦃y⦄ rn = elim (lookup key_block_type (y.annotations rn)) [
  | none ↦ output
  | some name ↦ get_block_type name
]

unfoldable pub is_unknown : BlockType → Bool
is_unknown k = elim k [ unknown ↦ true | _ ↦ false ]

-- The store that a handler asks for a block.
pub data Place : Type 0 where
  the_blocks : Place
  the_configs : Place
  the_backend : Place

unfoldable pub place_of : BlockType → Place
place_of provider = the_configs
place_of backend = the_backend
place_of _ = the_blocks

-- The kinds of which a package has several documents under one name.
unfoldable pub takes_more : BlockType → Bool
takes_more input = true
takes_more resource = true
takes_more data_block = true
takes_more list_block = true
takes_more _ = false

-- The annotations of the block types that `InitializeBlock` knows.
unfoldable pub expected_of : BlockType → Option Expected
expected_of backend = some backend_annotations
expected_of provider = some provider_annotations
expected_of package_block = some mixin_annotations
expected_of input = some input_annotations
expected_of output = some output_annotations
expected_of local = some local_annotations
expected_of resource = some resource_annotations
expected_of data_block = some resource_annotations
expected_of list_block = some resource_annotations
expected_of _ = none

-- A goroutine: before its handler asks for the block, with the answer, with the block whose data
-- was read to add to, and after its end.
pub data Worker {ℓ} (N : Type ℓ) : Type ℓ where
  to_look : Ctx N → Worker N
  to_act : Ctx N → Option (Block N) → Worker N
  to_store : Ctx N → Block N → Worker N
  at_end : Ctx N → Worker N

module _ {ℓ} {N : Type ℓ} ⦃y : Nodes N⦄ where
  -- The context with the kind that `processBlock` sets.
  unfoldable pub with_kind : Ctx N → Ctx N
  unfolding kind_of_node
  with_kind c = record c { ctx_block_type = kind_of_node (c.node) }

  unfoldable pub target_name : BlockType → Ctx N → Str
  unfolding name_of output_name_of resource_name_of block_name_of
  target_name provider c = name_of c
  target_name output c = dotted (type_name (c.ctx_block_type)) (output_name_of c)
  target_name resource c = resource_name_of c
  target_name data_block c = resource_name_of c
  target_name list_block c = resource_name_of c
  target_name _ c = block_name_of c

  unfoldable pub syntax_error : BlockType → Ctx N → Option Detail
  unfolding validate_resource_syntax resource_type_of
  syntax_error resource c = validate_resource_syntax (resource_type_of c)
  syntax_error data_block c = validate_resource_syntax (resource_type_of c)
  syntax_error list_block c = validate_resource_syntax (resource_type_of c)
  syntax_error _ c = none

  -- What is recorded when a block of another document has the name.
  unfoldable pub refused : Place → Ctx N → Block N → Diagnostic
  unfolding duplicate
  refused the_backend c b = diag_from_err_with_context (c.context_text) more_than_one_backend
  refused _ c b = duplicate c b

  -- The goroutines of the documents, before they start.
  unfoldable pub start_tasks : List (Ctx N) → List (Worker N)
  start_tasks [] = []
  start_tasks (c ∷ cs) = to_look c ∷ start_tasks cs

  unfoldable pub all_ended : List (Worker N) → Bool
  all_ended [] = true
  all_ended (at_end c ∷ ts) = all_ended ts
  all_ended (_ ∷ ts) = false

module _ {ℓ κ} {N : Type ℓ} {S : Type κ} ⦃y : Nodes N⦄ ⦃st : Storer (Block N) S⦄ where
  abbrev pub note_diag : Diagnostic → Intake N S → Intake N S
  note_diag d t = record t { records = record_diag d (t.records) }

  unfoldable pub entry_at : Place → Str → Package N S → Option (Block N)
  entry_at the_blocks name p = st.get_entry name (p.blocks)
  entry_at the_configs name p = st.get_entry name (p.provider_configs)
  entry_at the_backend name p = p.pkg_backend

  unfoldable pub look_in : Ctx N → Intake N S → Worker N × Intake N S
  unfolding entry_at place_of target_name with_kind
  look_in c t = elim (t.pkg) [
    | none ↦ (at_end c, note_diag (diag_from_err_with_context (c.context_text) without_package) t)
    | some p ↦
        let k = (with_kind c).ctx_block_type in
        (to_act c (entry_at (place_of k) (target_name k (with_kind c)) p), t)
  ]

  -- The annotations, and the type of a resource.
  unfoldable pub check_document : Expected → Ctx N → Intake N S → Worker N × Intake N S
  unfolding look_in syntax_error with_kind
  check_document expected c t =
      let t' = checked expected (with_kind c) t in
      elim (syntax_error ((with_kind c).ctx_block_type) (with_kind c)) [
        | some e ↦ (at_end c, note_diag (diag_from_err_with_context (c.context_text) e) t')
        | none ↦ look_in c t'
      ]

  unfoldable pub look_as : Option Expected → Ctx N → Intake N S → Worker N × Intake N S
  unfolding check_document
  look_as none c t = (at_end c, note_diag (diag_errorf no_initializer) t)
  look_as (some expected) c t = check_document expected c t

  -- `processBlock`, up to the question for the block of the name.
  unfoldable pub look : Ctx N → Intake N S → Worker N × Intake N S
  unfolding look_as kind_of_node is_unknown annotation_at expected_of
  look c t =
      let k = kind_of_node (c.node) in
      let text = annotation_at (y.annotations (c.node)) key_block_type in
      let known = look_as (expected_of k) c t in
      if is_unknown k
      then (at_end c, note_diag (diag_errorf (unknown_block_type text)) t)
      else known

  -- `Create`, and the backend of the package: one step, as no other goroutine asks for a backend by
  -- its name.
  unfoldable pub create_at : Place → Ctx N → Str → Package N S → Records → Package N S × Records
  unfolding on_blocks on_configs create_block new_block
  create_at the_blocks c name p rs = on_blocks (create_block c name) p rs
  create_at the_configs c name p rs = on_configs (create_block c name) p rs
  create_at the_backend c name p rs =
      let r = create_block c name (p.blocks) rs in
      (record p { blocks = r.0; pkg_backend = some (new_block c name) }, r.1)

  -- The block that the store holds, through whose pointer the data is read.
  unfoldable pub held_at : Place → Str → Option (Package N S) → Block N → Block N
  unfolding entry_at
  held_at pl name none b = b
  held_at pl name (some p) b = elim (entry_at pl name p) [ none ↦ b | some b' ↦ b' ]

  -- What follows the answer.
  unfoldable pub act_on : Ctx N → Option (Block N) → Intake N S → Worker N × Intake N S
  unfolding create_at with_package takes_more held_at refused list_duplicate place_of target_name
      with_kind
  act_on c none t =
      let k = (with_kind c).ctx_block_type in
      (
        at_end c,
        with_package (with_kind c) t
            (create_at (place_of k) (with_kind c) (target_name k (with_kind c))),
      )
  act_on c (some b) t =
      let k = (with_kind c).ctx_block_type in
      let name = target_name k (with_kind c) in
      if takes_more k
      then (
        to_store c (held_at (place_of k) name (t.pkg) b),
        record t { records = list_duplicate k (with_kind c) b (t.records) },
      )
      else (at_end c, note_diag (refused (place_of k) (with_kind c) b) t)

  -- The end of `addData`: what was read, with the document.
  unfoldable pub store_data : Ctx N → Block N → Intake N S → Worker N × Intake N S
  unfolding with_package on_blocks append_data target_name with_kind
  store_data c b t =
      let k = (with_kind c).ctx_block_type in
      (
        at_end c,
        with_package (with_kind c) t
            (on_blocks (append_data (with_kind c) (target_name k (with_kind c)) b)),
      )

  unfoldable pub step_task : Worker N → Intake N S → Worker N × Intake N S
  unfolding look act_on store_data
  step_task (to_look c) t = look c t
  step_task (to_act c seen) t = act_on c seen t
  step_task (to_store c b) t = store_data c b t
  step_task (at_end c) t = (at_end c, t)

  -- A step of the goroutine with the number.
  unfoldable pub step_at : ℕ → List (Worker N) → Intake N S → List (Worker N) × Intake N S
  unfolding step_task
  step_at i [] t = ([], t)
  step_at zero (a ∷ ts) t = let r = step_task a t in (r.0 ∷ ts, r.1)
  step_at (suc i) (a ∷ ts) t = let r = step_at i ts t in (a ∷ r.0, r.1)

  -- `validate` under a schedule, the numbers of the goroutines that go on.
  unfoldable pub run_tasks : List ℕ → List (Worker N) → Intake N S → List (Worker N) × Intake N S
  unfolding step_at
  run_tasks [] ts t = (ts, t)
  run_tasks (i ∷ is) ts t = let r = step_at i ts t in run_tasks is (r.0) (r.1)
