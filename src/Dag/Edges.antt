-- ===== src/Dag/Edges.antt =====
-- pkg/dag/dag.go: the state of a graph and the methods that read and change it.
use kform.Shared.{
  Assoc, Bool, List, Result, Str, [], add, contains, delete, err, has_key, if◌then◌else◌, insert,
  lookup, none, ok, some, str, str_eq, ℕ,
}

-- The key from which an execution starts.
abbrev pub root : Str
root = str "root"

pub data DagError : Type 0 where
  duplicate_vertex : Str → DagError
  vertex_not_found : Str → DagError
  not_found : Str → DagError

-- `map[string]map[string]struct{}`
abbrev pub EdgeMap : Type 0
EdgeMap = Assoc Str (List Str)

pub record Dag {ℓ} (V : Type ℓ) : Type ℓ where
  pub vertices : Assoc Str V
  pub down_edges : EdgeMap
  pub up_edges : EdgeMap
  -- used for the transitive reduction; a nil map reads as an empty one
  pub vertex_depth : Assoc Str ℕ

-- The inner map at a key; a missing one has no entries.
unfoldable pub ends_of : EdgeMap → Str → List Str
ends_of m from = elim (lookup from m) [ none ↦ [] | some es ↦ es ]

-- The body that `AddDownEdge` and `AddUpEdge` share.
unfoldable pub add_edge : EdgeMap → Str → Str → EdgeMap
unfolding ends_of
add_edge m from to =
    let m' : EdgeMap = elim (lookup from m) [ none ↦ insert from [] m | some _ ↦ m ] in
    if contains (ends_of m' from) to then m' else insert from (add to (ends_of m' from)) m'

-- The body that `DeleteDownEdge` and `DeleteUpEdge` share.
unfoldable pub delete_edge : EdgeMap → Str → Str → EdgeMap
delete_edge m from to = elim (lookup from m) [
  | none ↦ m
  | some es ↦ if contains es to then insert from (delete to es) m else m
]

module _ {ℓ} {V : Type ℓ} where
  unfoldable pub new : Dag V
  new = record { vertices = []; down_edges = []; up_edges = []; vertex_depth = [] }

  unfoldable pub add_vertex : Dag V → Str → V → Result DagError (Dag V)
  add_vertex d s v =
      if has_key s d.vertices
      then err (duplicate_vertex s)
      else ok (record d { vertices = insert s v d.vertices })

  unfoldable pub update_vertex : Dag V → Str → V → Result DagError (Dag V)
  update_vertex d s v =
      if has_key s d.vertices
      then ok (record d { vertices = insert s v d.vertices })
      else err (vertex_not_found s)

  unfoldable pub get_vertices : Dag V → Assoc Str V
  get_vertices d = d.vertices

  unfoldable pub vertex_exists : Dag V → Str → Bool
  vertex_exists d s = has_key s d.vertices

  unfoldable pub get_vertex : Dag V → Str → Result DagError V
  get_vertex d s = elim (lookup s d.vertices) [ none ↦ err (not_found s) | some v ↦ ok v ]

  unfoldable pub add_down_edge : Dag V → Str → Str → Dag V
  add_down_edge d from to = record d { down_edges = add_edge d.down_edges from to }

  unfoldable pub add_up_edge : Dag V → Str → Str → Dag V
  add_up_edge d from to = record d { up_edges = add_edge d.up_edges from to }

  unfoldable pub delete_down_edge : Dag V → Str → Str → Dag V
  delete_down_edge d from to = record d { down_edges = delete_edge d.down_edges from to }

  unfoldable pub delete_up_edge : Dag V → Str → Str → Dag V
  delete_up_edge d from to = record d { up_edges = delete_edge d.up_edges from to }

  unfoldable pub connect : Dag V → Str → Str → Dag V
  unfolding add_up_edge add_down_edge
  connect d from to = add_up_edge (add_down_edge d from to) to from

  unfoldable pub disconnect : Dag V → Str → Str → Dag V
  unfolding delete_up_edge delete_down_edge
  disconnect d from to = delete_up_edge (delete_down_edge d from to) to from

  -- `range` over a map visits its keys in any order: `ord` is the order of this call.
  unfoldable pub get_down_vertexes : (List Str → List Str) → Dag V → Str → List Str
  unfolding ends_of
  get_down_vertexes ord d from = ord (ends_of d.down_edges from)

  unfoldable pub get_up_vertexes : (List Str → List Str) → Dag V → Str → List Str
  unfolding ends_of
  get_up_vertexes ord d from = ord (ends_of d.up_edges from)
