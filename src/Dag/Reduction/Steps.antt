-- ===== src/Dag/Reduction/Steps.antt =====
-- What one visit of either walk does to the edges.
use kform.Shared.{
  Bool, Bool-cases, List, Str, [], ap, arith, contains, eq_iff, eq_refl, if◌then◌else◌, inl, inr,
  ltb, nat_beq, not, refl, str_eq, sym, true, ℕ, ◌&&◌, ◌==◌, ◌∙◌, ◌∷◌, ◌≡◌, ◌⊎◌,
}
use kform.Dag.Edges.{Dag, disconnect}
use kform.Dag.Laws.{IsMirror, linked, linked-delete_edge, linked-disconnect}
use kform.Dag.Reduction.Walk.{best_of, cut, get_vertex_depth}

-- `e` has at most the edges of `d`, and the same vertices.
pub record Shrinks {ℓ} {V : Type ℓ} (d e : Dag V) : Type ℓ where
  pub vertices_kept : e.vertices ≡ d.vertices
  pub fewer : (u v : Str) → linked e.down_edges u v ≡ true → linked d.down_edges u v ≡ true

module _ {ℓ} {V : Type ℓ} where
  pub Shrinks-refl : (d : Dag V) → Shrinks d d
  Shrinks-refl d = record { vertices_kept = refl; fewer = λ u v h. h }

  pub Shrinks-trans : {d e f : Dag V} → Shrinks d e → Shrinks e f → Shrinks d f
  Shrinks-trans h k = record {
    vertices_kept = k.vertices_kept ∙ h.vertices_kept;
    fewer = λ u v l. h.fewer u v (k.fewer u v l);
  }

  pub disconnect-Shrinks : (d : Dag V) (a b : Str) → Shrinks d (disconnect d a b)
  unfolding disconnect
  disconnect-Shrinks d a b = record {
    vertices_kept = refl;
    fewer = λ u v l. ground (arith, linked-delete_edge d.down_edges a b u v);
  }

  -- `cut` as one filter: the edges into `from` whose depth is neither 0 nor the best.
  abbrev pub is_cut : Dag V → ℕ → Str → Bool
  is_cut d best up =
      not (nat_beq best 0)
      && (not (nat_beq (get_vertex_depth d up) 0) && not (nat_beq (get_vertex_depth d up) best))

  pub get_vertex_depth-disconnect :
      (d : Dag V) (a b n : Str) → get_vertex_depth (disconnect d a b) n ≡ get_vertex_depth d n
  unfolding get_vertex_depth disconnect
  get_vertex_depth-disconnect d a b n = refl

  -- The down edges that are left after the loop of `processTransitiveReducation`.
  pub linked-cut :
      (from : Str) (best : ℕ) (ups : List Str) (d : Dag V) (u v : Str)
      → linked (cut from best ups d).down_edges u v
        ≡ (linked d.down_edges u v && not (from == v && (contains ups u && is_cut d best u)))
  unfolding cut contains
  linked-cut from best [] d u v = ground arith
  linked-cut from best (up ∷ ups) d u v = ground (
    arith,
    eq_iff up u,
    linked-cut from best ups d u v,
    linked-cut from best ups (disconnect d up from) u v,
    get_vertex_depth-disconnect d up from u,
    linked-disconnect d up from u v,
  )

  pub linked-cut_up :
      (from : Str) (best : ℕ) (ups : List Str) (d : Dag V) (u v : Str)
      → linked (cut from best ups d).up_edges v u
        ≡ (linked d.up_edges v u && not (from == v && (contains ups u && is_cut d best u)))
  unfolding cut contains
  linked-cut_up from best [] d u v = ground arith
  linked-cut_up from best (up ∷ ups) d u v = ground (
    arith,
    eq_iff up u,
    linked-cut_up from best ups d u v,
    linked-cut_up from best ups (disconnect d up from) u v,
    get_vertex_depth-disconnect d up from u,
    linked-disconnect d up from u v,
  )

  pub cut-vertices :
      (from : Str) (best : ℕ) (ups : List Str) (d : Dag V)
      → (cut from best ups d).vertices ≡ d.vertices
  unfolding cut disconnect
  cut-vertices from best [] d = refl
  cut-vertices from best (up ∷ ups) d =
      ground
        (arith, cut-vertices from best ups d, cut-vertices from best ups (disconnect d up from))

  pub cut-Shrinks :
      (from : Str) (best : ℕ) (ups : List Str) (d : Dag V) → Shrinks d (cut from best ups d)
  cut-Shrinks from best ups d = record {
    vertices_kept = cut-vertices from best ups d;
    fewer = λ u v l. ground (arith, linked-cut from best ups d u v);
  }

  pub cut-IsMirror :
      (from : Str) (best : ℕ) (ups : List Str) (d : Dag V)
      → IsMirror d
      → IsMirror (cut from best ups d)
  cut-IsMirror from best ups d h = record {
    mirror = λ u v.
        linked-cut from best ups d u v
        ∙ ap (λ (b : Bool). b && not (from == v && (contains ups u && is_cut d best u)))
            (h.mirror u v)
        ∙ sym (linked-cut_up from best ups d u v);
  }

  -- The best depth is the one it started with, or some listed vertex has it.
  pub best_of_attained :
      (d : Dag V) (b : ℕ) (ups : List Str)
      → (best_of d b ups ≡ b)
        ⊎ ((w : Str) × (contains ups w ≡ true) × (get_vertex_depth d w ≡ best_of d b ups))
  unfolding best_of contains
  best_of_attained d b [] = inl refl
  best_of_attained d b (up ∷ ups) =
      elim (best_of_attained d (if ltb b (get_vertex_depth d up) then get_vertex_depth d up else b)
        ups) [
          | inr (w, there, deep) ↦ inr (w, ground arith, deep)
          | inl e ↦ elim (Bool-cases (ltb b (get_vertex_depth d up))) [
            | inl deeper ↦ inr (up, rw (eq_refl up) refl, rw deeper (sym (rw deeper at e)))
            | inr other ↦ inl (rw other (rw other at e))
          ]
        ]
