-- ===== src/Dag/Laws.antt =====
-- What the methods of pkg/dag/dag.go do to the edges, and the invariant that both edge maps tell
-- the same story.
use kform.Shared.{
  Bool, Bool-cases, Option-cases, Str, [], add, arith, contains, contains-add, contains-delete,
  delete, eq_iff, eq_refl, err, false, has_key, if◌then◌else◌, inl, inr, insert, lookup,
  lookup-insert, not, ok, str_eq, true, ◌&&◌, ◌==◌, ◌||◌, ◌≡◌, ◌⊎◌,
}
use kform.Dag.Edges.{
  Dag, EdgeMap, add_edge, add_vertex, connect, delete_edge, disconnect, duplicate_vertex, ends_of,
  get_vertex, vertex_exists,
}

-- Is there an entry `m[u][v]`?
unfoldable pub linked : EdgeMap → Str → Str → Bool
unfolding ends_of
linked m u v = contains (ends_of m u) v

pub linked-add_edge :
    (m : EdgeMap) (a b u v : Str)
    → linked (add_edge m a b) u v ≡ ((a == u && b == v) || linked m u v)
unfolding linked add_edge contains
linked-add_edge m a b u v = elim (Option-cases (lookup a m)) [
  | inl none_yet ↦ ground (
    arith,
    eq_iff a u,
    lookup-insert a u [] m,
    lookup-insert a a [] m,
    eq_refl a,
    contains-add b v [],
    lookup-insert a u (add b []) (insert a [] m),
  )
  | inr (es, found) ↦ ground (
    arith,
    eq_iff a u,
    eq_iff b v,
    eq_refl b,
    contains-add b v es,
    lookup-insert a u (add b es) m,
  )
]

pub linked-delete_edge :
    (m : EdgeMap) (a b u v : Str)
    → linked (delete_edge m a b) u v ≡ (linked m u v && not (a == u && b == v))
unfolding linked delete_edge contains
linked-delete_edge m a b u v = elim (Option-cases (lookup a m)) [
  | inl none_yet ↦ ground (arith, eq_iff a u)
  | inr (es, found) ↦
      ground
        (arith, eq_iff a u, eq_iff b v, contains-delete b v es, lookup-insert a u (delete b es) m)
]

-- Both edge maps hold the same edges.
pub record IsMirror {ℓ} {V : Type ℓ} (d : Dag V) : Type 0 where
  pub mirror : (u v : Str) → linked d.down_edges u v ≡ linked d.up_edges v u

module _ {ℓ} {V : Type ℓ} (d : Dag V) (a b : Str) where
  -- After `Connect(a, b)` the edges are the old ones and a → b, downwards and upwards.
  pub linked-connect :
      (u v : Str)
      → (linked (connect d a b).down_edges u v ≡ ((a == u && b == v) || linked d.down_edges u v))
        × (linked (connect d a b).up_edges v u ≡ ((b == v && a == u) || linked d.up_edges v u))
  unfolding connect
  linked-connect u v = (linked-add_edge d.down_edges a b u v, linked-add_edge d.up_edges b a v u)

  -- After `Disconnect(a, b)` the edges are the old ones without a → b, downwards and upwards.
  pub linked-disconnect :
      (u v : Str)
      → (linked (disconnect d a b).down_edges u v
          ≡ (linked d.down_edges u v && not (a == u && b == v)))
        × (linked (disconnect d a b).up_edges v u
            ≡ (linked d.up_edges v u && not (b == v && a == u)))
  unfolding disconnect
  linked-disconnect u v =
      (linked-delete_edge d.down_edges a b u v, linked-delete_edge d.up_edges b a v u)

  pub connect-IsMirror : IsMirror d → IsMirror (connect d a b)
  connect-IsMirror h = record { mirror = λ u v. ground (arith, linked-connect u v, h.mirror u v) }

  pub disconnect-IsMirror : IsMirror d → IsMirror (disconnect d a b)
  disconnect-IsMirror h = record {
    mirror = λ u v. ground (arith, linked-disconnect u v, h.mirror u v);
  }

-- `AddVertex` refuses exactly a name that is taken; after it, every name reads as before, but for
-- the new one.
pub get_vertex-add_vertex {ℓ} :
    {V : Type ℓ} (d : Dag V) (s : Str) (v : V)
    → (vertex_exists d s ≡ true) × (add_vertex d s v ≡ err (duplicate_vertex s))
      ⊎ (vertex_exists d s ≡ false)
        × ((d' : Dag V) × (add_vertex d s v ≡ ok d')
            × ((t : Str) → get_vertex d' t ≡ (if s == t then ok v else get_vertex d t)))
unfolding add_vertex vertex_exists get_vertex
get_vertex-add_vertex d s v = elim (Bool-cases (has_key s d.vertices)) [
  | inl taken ↦ inl (taken, rw taken)
  | inr free ↦ inr (
    free,
    (
      record d { vertices = insert s v d.vertices },
      rw free,
      λ t. ground (arith, lookup-insert s t v d.vertices),
    ),
  )
]
