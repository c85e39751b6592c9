-- ===== src/Dag/Reduction/Coverage.antt =====
-- The reach of the root in what pkg/dag/tr.go leaves: pkg/exec/executor walks along the down edges
-- of the reduced graph.
use kform.Shared.{
  Str, ap, arith, has_key, inl, inr, some, str_eq, subst, suc, sym, true, zero, ℕ, ◌<◌, ◌∙◌, ◌≡◌,
  ◌⊎◌,
}
use kform.Dag.Edges.{Dag, root, vertex_exists}
use kform.Dag.Laws.{IsMirror, linked}
use kform.Dag.Reduction.Invariant.{HasUp, IsOrder, reduction-IsReduced}
use kform.Dag.Reduction.Walk.{Order, Walk, transitive_reduction}

-- The vertices that the down edges lead to.
pub data Reach {ℓ} {V : Type ℓ} (d : Dag V) (from : Str) : Str → Type 0 where
  here : Reach d from from
  next : {u v : Str} → Reach d from u → linked d.down_edges u v ≡ true → Reach d from v

-- A graph that is ready to be executed: every vertex but the root depends on some vertex, every
-- edge leaves a vertex of the graph, and both edge maps agree.
pub record IsRooted {ℓ} {V : Type ℓ} (d : Dag V) : Type ℓ where
  pub mirrored : IsMirror d
  pub covered : (v : Str) → vertex_exists d v ≡ true → (v ≡ root) ⊎ HasUp d v
  pub closed : (u v : Str) → linked d.down_edges u v ≡ true → vertex_exists d u ≡ true

module _ {ℓ} {V : Type ℓ} where
  -- With no cycle the root leads to every vertex.
  IsRooted-Reach :
      (d : Dag V) (rank : Str → ℕ)
      → IsRooted d
      → ((u v : Str) → linked d.down_edges u v ≡ true → rank u < rank v)
      → (n : ℕ) (v : Str) → rank v < n
      → vertex_exists d v ≡ true
      → Reach d root v
  IsRooted-Reach d rank h up zero v below known = absurd (omega arith)
  IsRooted-Reach d rank h up (suc n) v below known = elim (h.covered v known) [
    | inl is_root ↦ subst (λ x. Reach d root x) (sym is_root) here
    | inr (u, l) ↦
        let edge = h.mirrored.mirror u v ∙ l in
        next (IsRooted-Reach d rank h up n u (omega (arith, up u v edge)) (h.closed u v edge)) edge
  ]

  -- The reduction leaves a graph ready to be executed.
  reduction-IsRooted :
      (ord : Order) (fuel : ℕ) (w t : Walk V)
      → IsOrder ord
      → IsRooted (w.dag)
      → transitive_reduction ord fuel w ≡ some t
      → IsRooted (t.dag)
  unfolding vertex_exists
  reduction-IsRooted ord fuel w t order h e =
      let r = reduction-IsReduced ord fuel w t order h.mirrored e in
      record {
        mirrored = r.mirrored;
        covered = λ v known.
            elim (h.covered v (ap (λ m. has_key v m) (sym r.shrinks.vertices_kept) ∙ known)) [
              | inl is_root ↦ inl is_root
              | inr up ↦ inr (r.still_up v up)
            ];
        closed = λ u v edge.
            ap (λ m. has_key u m) r.shrinks.vertices_kept ∙ h.closed u v (r.shrinks.fewer u v edge);
      }

  -- On a graph with no cycle, whose edge maps agree and whose edges leave vertices, and in which
  -- every vertex but the root depends on some vertex: if the reduction returns, the root leads to
  -- every vertex in what it returns, whatever the order of the ranges.
  pub reduction_covers :
      (ord : Order) (fuel : ℕ) (w t : Walk V) (rank : Str → ℕ)
      → IsOrder ord
      → IsRooted (w.dag)
      → ((u v : Str) → linked (w.dag.down_edges) u v ≡ true → rank u < rank v)
      → transitive_reduction ord fuel w ≡ some t
      → (v : Str) → vertex_exists (w.dag) v ≡ true
      → Reach (t.dag) root v
  unfolding vertex_exists
  reduction_covers ord fuel w t rank order h up e v known =
      let r = reduction-IsReduced ord fuel w t order h.mirrored e in
      IsRooted-Reach t.dag rank (reduction-IsRooted ord fuel w t order h e)
        (λ a b edge. up a b (r.shrinks.fewer a b edge)) (suc (rank v)) v (omega arith)
        (ap (λ m. has_key v m) r.shrinks.vertices_kept ∙ known)
