-- ===== src/Renderer/Walk.antt =====
-- pkg/render2/render2.go: the walk over a YAML document, which hands each string to a function.
use kform.Shared.{Result, Str, [], err, if◌then◌else◌, ok, str, str_eq, ◌==◌}

mutual
  -- `yaml.Node`: a mapping, a sequence, a scalar with its tag and its value, or a node of another
  -- kind.
  pub data Yaml : Type 0 where
    mapping : Pairs → Yaml
    sequence : Elements → Yaml
    scalar : Str → Str → Yaml
    other_node : Yaml

  -- The keys and values of a mapping.
  pub data Pairs : Type 0 where
    no_pairs : Pairs
    pair : Yaml → Yaml → Pairs → Pairs

  pub data Elements : Type 0 where
    no_elements : Elements
    element : Yaml → Elements → Elements

module _ {ℓ} {S : Type ℓ} (string_fn : Str → S → S × Result Str Str) where
  -- A scalar: the new value without a tag, or the old node if the function returns an error.
  unfoldable pub render_scalar : Str → Str → S → S × Yaml
  render_scalar tag text s =
      let r = string_fn text s in
      if tag == str "!!str"
      then (r.0, elim (r.1) [ ok v ↦ scalar [] v | err _ ↦ scalar tag text ])
      else (s, scalar tag text)

  unfoldable mutual
    unfolding render_scalar

    -- `Render`; the values of a mapping are walked, and its keys are not.
    pub render : Yaml → S → S × Yaml
    render (mapping ps) s = let r = render_pairs ps s in (r.0, mapping (r.1))
    render (sequence es) s = let r = render_elements es s in (r.0, sequence (r.1))
    render (scalar tag text) s = render_scalar tag text s
    render other_node s = (s, other_node)

    pub render_pairs : Pairs → S → S × Pairs
    render_pairs no_pairs s = (s, no_pairs)
    render_pairs (pair k v ps) s =
        let r = render v s in let rest = render_pairs ps (r.0) in (rest.0, pair k (r.1) (rest.1))

    pub render_elements : Elements → S → S × Elements
    render_elements no_elements s = (s, no_elements)
    render_elements (element e es) s =
        let r = render e s in
        let rest = render_elements es (r.0) in (rest.0, element (r.1) (rest.1))
