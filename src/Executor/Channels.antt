-- ===== src/Executor/Channels.antt =====
-- pkg/exec/executor/dag_executor.go, `init`: a context for every vertex, and a channel for every
-- dependency.
use kform.Shared.{Assoc, List, Option, Str, [], add, insert, keys, lookup, none, some, str_eq, ◌∷◌}
use kform.Dag.Edges.{Dag, get_up_vertexes, get_vertices}

-- The maps of channels by the names they are filed under. The channel from `u` to `v` is the
-- entry `v` of `u`'s `doneChs` and the entry `u` of `v`'s `depChs`.
pub record ExecContext : Type 0 where
  pub done_chs : List Str
  pub dep_chs : List Str
  pub deps : List Str

abbrev pub ExecMap : Type 0
ExecMap = Assoc Str ExecContext

-- The first loop.
unfoldable pub new_contexts : List Str → ExecMap
new_contexts [] = []
new_contexts (v ∷ vs) =
    insert v (record { done_chs = []; dep_chs = []; deps = [] }) (new_contexts vs)

unfoldable pub add_done_ch : ExecMap → Str → Str → Option ExecMap
add_done_ch m at n = elim (lookup at m) [
  | none ↦ none
  | some c ↦ some (insert at (record c { done_chs = add n c.done_chs }) m)
]

unfoldable pub add_dep_ch : ExecMap → Str → Str → Option ExecMap
add_dep_ch m at n = elim (lookup at m) [
  | none ↦ none
  | some c ↦ some (insert at (record c { dep_chs = add n c.dep_chs }) m)
]

-- The inner loop; `none` is the nil pointer of a dependency that is no vertex.
unfoldable pub link_deps : Str → List Str → ExecMap → Option ExecMap
link_deps v [] m = some m
link_deps v (dep ∷ deps) m = elim (add_done_ch m dep v) [
  | none ↦ none
  | some m' ↦ elim (add_dep_ch m' v dep) [ none ↦ none | some m'' ↦ link_deps v deps m'' ]
]

-- `execCtx.deps = r.d.GetUpVertexes(vertexName)`
unfoldable pub set_deps : ExecMap → Str → List Str → Option ExecMap
set_deps m at names = elim (lookup at m) [
  | none ↦ none
  | some c ↦ some (insert at (record c { deps = names }) m)
]

module _ {ℓ} {V : Type ℓ} (ord : List Str → List Str) (d : Dag V) where
  -- The second loop.
  unfoldable pub link_all : List Str → ExecMap → Option ExecMap
  link_all [] m = some m
  link_all (v ∷ vs) m = elim (link_deps v (get_up_vertexes ord d v) m) [
    | none ↦ none
    | some m' ↦ elim (set_deps m' v (get_up_vertexes ord d v)) [
      | none ↦ none
      | some m'' ↦ link_all vs m''
    ]
  ]

  unfoldable pub init : Option ExecMap
  unfolding link_all link_deps add_done_ch add_dep_ch set_deps new_contexts
  init = let vs = keys (get_vertices d) in link_all (ord vs) (new_contexts (ord vs))

-- The names under which a context holds its channels; a missing context holds none.
unfoldable pub done_chs_of : ExecMap → Str → List Str
done_chs_of m v = elim (lookup v m) [ none ↦ [] | some c ↦ c.done_chs ]

unfoldable pub dep_chs_of : ExecMap → Str → List Str
dep_chs_of m v = elim (lookup v m) [ none ↦ [] | some c ↦ c.dep_chs ]
