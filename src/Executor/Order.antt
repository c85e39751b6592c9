-- ===== src/Executor/Order.antt =====
-- The promises of pkg/exec/executor, over every schedule of its goroutines.
use mathlib.Core.Option.{some-injective}
use kform.Shared.{
  Bool, List, Memᴰ, Str, [], arith, contains, some, str_eq, subst, sym, true, ◌&&◌, ◌++◌, ◌∙◌, ◌∷◌,
  ◌≡◌,
}
use kform.Dag.Edges.{Dag, vertex_exists}
use kform.Dag.Laws.{linked}
use kform.Dag.Reduction.Invariant.{IsOrder}
use kform.Dag.Reduction.Walk.{Order}
use kform.Executor.Channels.{ExecMap, dep_chs_of, init}
use kform.Executor.Invariant.{run-Inv}
use kform.Executor.Knowledge.{HasEnded, IsOrdered, start-Inv}
use kform.Executor.Matrix.{init-channels}
use kform.Executor.System.{Choice, Event, ended, run, start, started}

-- Every dependency of a vertex is a vertex.
abbrev pub IsClosed {ℓ} : {V : Type ℓ} → Dag V → Type 0
IsClosed d =
    (w u : Str) → vertex_exists d w ≡ true → linked d.up_edges w u ≡ true → vertex_exists d u ≡ true

module _ {ℓ} {V : Type ℓ} (ord : Order) (order : IsOrder ord) (d : Dag V) (m : ExecMap) where
  -- The channels that the goroutine of a vertex waits on are those of its dependencies.
  waits_on :
      IsClosed d
      → init (ord 0) d ≡ some m
      → (v u : Str) → contains (dep_chs_of m v) u ≡ (vertex_exists d v && linked d.up_edges v u)
  waits_on closed made v u =
      let (m', made', matrix) = init-channels (ord 0) d (order.visits 0) closed in
      let same : m ≡ m' = some-injective m m' (sym made ∙ made') in
      subst (λ x. contains (dep_chs_of x v) u ≡ (vertex_exists d v && linked d.up_edges v u))
        (sym same) (matrix u v).1

split_IsOrdered :
    (depends : Str → Str → Bool) (is_vertex : Str → Bool) (later earlier : List Event) (v : Str)
    → IsOrdered depends is_vertex (later ++ started v ∷ earlier)
    → (u : Str) → depends v u ≡ true
    → HasEnded earlier u
split_IsOrdered depends is_vertex [] earlier v h = h.0
split_IsOrdered depends is_vertex (started w ∷ later) earlier v h =
    split_IsOrdered depends is_vertex later earlier v h.1
split_IsOrdered depends is_vertex (ended w b ∷ later) earlier v h =
    split_IsOrdered depends is_vertex later earlier v h

-- Dependencies first: whenever the block of a vertex starts, the block of everything that the
-- vertex depends on has ended before.
pub run_ordered {ℓ} :
    {V : Type ℓ} (ord : Order) (d : Dag V) (m : ExecMap) (from : Str) (cs : List Choice)
    → IsOrder ord
    → IsClosed d
    → init (ord 0) d ≡ some m
    → (later earlier : List Event) (v u : Str)
    → (run ord d m cs (start from)).log ≡ later ++ started v ∷ earlier
    → vertex_exists d v ≡ true
    → linked (d.up_edges) v u ≡ true
    → HasEnded earlier u
run_ordered ord d m from cs order closed made later earlier v u split known l =
    let inv = run-Inv ord order d m cs (start from) (start-Inv _ _ from) in
    split_IsOrdered (λ w x. contains (dep_chs_of m w) x) (vertex_exists d) later earlier v
      (subst (IsOrdered (λ w x. contains (dep_chs_of m w) x) (vertex_exists d)) split inv.ordered) u
      (ground (arith, waits_on ord order d m closed made v u))

-- `Run` returns true only after the block of every vertex has run and has returned true.
pub run_success {ℓ} :
    {V : Type ℓ} (ord : Order) (d : Dag V) (m : ExecMap) (from : Str) (cs : List Choice)
    → IsOrder ord
    → (run ord d m cs (start from)).result ≡ some true
    → (v : Str) → vertex_exists d v ≡ true
    → Memᴰ (ended v true) (run ord d m cs (start from)).log
run_success ord d m from cs order done =
    (run-Inv ord order d m cs (start from) (start-Inv _ _ from)).returned done
