-- ===== src/Renderer/Found.antt =====
-- Which dependencies a walk over a document finds.
use kform.Shared.{
  Bool, Bool-cases, List, Str, [], any, arith, contains, contains-add, contains_text, eq_iff, false,
  inl, inr, not, split, str, str_eq, true, ◌&&◌, ◌==◌, ◌||◌, ◌∙◌, ◌∷◌, ◌≡◌,
}
use kform.Package.Blocks.{Block}
use kform.Package.Nodes.{BlockData, Nodes, annotation_at, get_copies, key_depends_on}
use kform.Renderer.Dependencies.{
  Found, contains_some, find_dependencies, note, note_contained, note_if, note_parts, nothing_found,
  render_string, resolve_depends_on, with_dependencies,
}
use kform.Renderer.Walk.{
  Elements, Pairs, Yaml, element, mapping, no_elements, no_pairs, other_node, pair, render,
  render_elements, render_pairs, render_scalar, scalar, sequence,
}

mutual
  unfolding contains_text

  -- Does a string of the document, which is no key, contain the name?
  pub mentions : Str → Yaml → Bool
  mentions name (mapping ps) = mentions_in_pairs name ps
  mentions name (sequence es) = mentions_in_elements name es
  mentions name (scalar tag text) = (tag == str "!!str") && contains_text text name
  mentions name other_node = false

  pub mentions_in_pairs : Str → Pairs → Bool
  mentions_in_pairs name no_pairs = false
  mentions_in_pairs name (pair k v ps) = mentions name v || mentions_in_pairs name ps

  pub mentions_in_elements : Str → Elements → Bool
  mentions_in_elements name no_elements = false
  mentions_in_elements name (element e es) = mentions name e || mentions_in_elements name es

note_if-deps :
    (there : Bool) (name b : Str) (f : Found)
    → contains ((note_if there name f).deps) b ≡ (contains (f.deps) b || there && (name == b))
unfolding note_if note
note_if-deps true name b f = ground (arith, contains-add name b (f.deps))
note_if-deps false name b f = ground arith

note_contained-deps :
    (blocks : List Str) (expr b : Str) (f : Found)
    → contains ((note_contained blocks expr f).deps) b
      ≡ (contains (f.deps) b || contains blocks b && contains_text expr b)
unfolding note_contained contains
note_contained-deps [] expr b f = ground arith
note_contained-deps (a ∷ bs) expr b f = ground (
  arith,
  eq_iff a b,
  note_contained-deps bs expr b (note_if (contains_text expr a) a f),
  note_if-deps (contains_text expr a) a b f,
)

-- After the walk a name is a dependency if it was one, or is a block that is mentioned.
abbrev FoundIn : List Str → Str → Bool → Found → Found → Type 0
FoundIn blocks b there f f' =
    contains (f'.deps) b ≡ (contains (f.deps) b || contains blocks b && there)

scalar-FoundIn :
    (blocks : List Str) (b tag text : Str) (f : Found)
    → FoundIn blocks b
        ((tag == str "!!str") && contains_text text b)
        f
        ((render_scalar (render_string blocks) tag text f).0)
unfolding render_scalar render_string
scalar-FoundIn blocks b tag text f = elim (Bool-cases (tag == str "!!str")) [
  | inl e ↦ rw e (note_contained-deps blocks text b f)
  | inr e ↦ rw e (ground arith)
]

mutual
  unfolding render mentions

  render-FoundIn :
      (blocks : List Str) (b : Str) (t : Yaml) (f : Found)
      → FoundIn blocks b (mentions b t) f ((render (render_string blocks) t f).0)
  render-FoundIn blocks b (mapping ps) f = render_pairs-FoundIn blocks b ps f
  render-FoundIn blocks b (sequence es) f = render_elements-FoundIn blocks b es f
  render-FoundIn blocks b (scalar tag text) f = scalar-FoundIn blocks b tag text f
  render-FoundIn blocks b other_node f = ground arith

  render_pairs-FoundIn :
      (blocks : List Str) (b : Str) (ps : Pairs) (f : Found)
      → FoundIn blocks b (mentions_in_pairs b ps) f ((render_pairs (render_string blocks) ps f).0)
  render_pairs-FoundIn blocks b no_pairs f = ground arith
  render_pairs-FoundIn blocks b (pair k v ps) f =
      let f' = (render (render_string blocks) v f).0 in
      ground (arith, render-FoundIn blocks b v f, render_pairs-FoundIn blocks b ps f')

  render_elements-FoundIn :
      (blocks : List Str) (b : Str) (es : Elements) (f : Found)
      → FoundIn blocks b
          (mentions_in_elements b es)
          f
          ((render_elements (render_string blocks) es f).0)
  render_elements-FoundIn blocks b no_elements f = ground arith
  render_elements-FoundIn blocks b (element e es) f =
      let f' = (render (render_string blocks) e f).0 in
      ground (arith, render-FoundIn blocks b e f, render_elements-FoundIn blocks b es f')

note_parts-deps :
    (blocks parts : List Str) (b : Str) (f : Found)
    → contains ((note_parts blocks parts f).deps) b
      ≡ (contains (f.deps) b || contains parts b && contains_some blocks b)
unfolding note_parts contains
note_parts-deps blocks [] b f = ground arith
note_parts-deps blocks (p ∷ ps) b f = ground (
  arith,
  eq_iff p b,
  note_parts-deps blocks ps b (note_if (contains_some blocks p) p f),
  note_if-deps (contains_some blocks p) p b f,
)

module _ {ℓ} {N : Type ℓ} ⦃y : Nodes N⦄ (yaml_of : N → Yaml) where
  -- The name is a block that the document mentions, or a part of its depends-on annotation that
  -- contains the name of a block.
  pub depends_by : List Str → Str → N → Bool
  unfolding annotation_at split mentions contains_some
  depends_by blocks b rn =
      let text = annotation_at (y.annotations rn) key_depends_on in
      (contains blocks b && mentions b (yaml_of rn))
      || (not (text == []) && (contains (split 44 text) b && contains_some blocks b))

  resolve_depends_on-deps :
      (blocks : List Str) (b : Str) (rn : N) (f : Found)
      → let text = annotation_at (y.annotations rn) key_depends_on in
        contains ((resolve_depends_on yaml_of blocks rn f).deps) b ≡ (
          contains (f.deps) b
          || (not (text == []) && (contains (split 44 text) b && contains_some blocks b)))
  unfolding resolve_depends_on
  resolve_depends_on-deps blocks b rn f =
      let text = annotation_at (y.annotations rn) key_depends_on in
      elim (Bool-cases (text == [])) [
        | inl e ↦ rw e (ground arith)
        | inr e ↦ rw e (note_parts-deps blocks (split 44 text) b f)
      ]

  find_dependencies-deps :
      (blocks : List Str) (bd : BlockData N) (b : Str) (f : Found)
      → contains ((find_dependencies yaml_of blocks bd f).deps) b
        ≡ (contains (f.deps) b || any (depends_by blocks b) bd)
  unfolding find_dependencies depends_by
  find_dependencies-deps blocks [] b f = ground arith
  find_dependencies-deps blocks (rn ∷ bd) b f =
      let f' = (render (render_string blocks) (yaml_of rn) f).0 in
      let f'' = resolve_depends_on yaml_of blocks rn f' in
      find_dependencies-deps blocks bd b f''
      ∙ ground
          (arith, resolve_depends_on-deps blocks b rn f', render-FoundIn blocks b (yaml_of rn) f)

  -- The dependencies that a block is given are the blocks whose name stands in a string of one of
  -- its documents, keys excepted, and the parts of their depends-on annotations that contain the
  -- name of a block.
  pub with_dependencies_lem :
      (blocks : List Str) (made : Block N) (b : Str)
      → contains ((with_dependencies yaml_of blocks made).dependencies) b
        ≡ any (depends_by blocks b) (get_copies (made.block_data))
  unfolding with_dependencies contains
  with_dependencies_lem blocks made b =
      find_dependencies-deps blocks (get_copies (made.block_data)) b (nothing_found yaml_of)
