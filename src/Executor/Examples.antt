-- ===== src/Executor/Examples.antt =====
-- Runs of small graphs.
use kform.Shared.{
  List, Memᴰ, Str, [], add, arith, contains, eq_iff, false, has_key, if◌then◌else◌, insert, keys,
  list_beq, lookup, nat_beq, none, refl, some, str, str_eq, true, ℕ, ◌&&◌, ◌∷◌, ◌≡◌,
}
use kform.Dag.Edges.{
  Dag, add_edge, connect, ends_of, get_down_vertexes, get_up_vertexes, get_vertices, root,
  vertex_exists,
}
use kform.Dag.Laws.{linked}
use kform.Dag.Reduction.Invariant.{IsOrder}
use kform.Dag.Reduction.Walk.{Order}
use kform.Executor.Channels.{ExecContext, ExecMap, dep_chs_of, done_chs_of, init}
use kform.Executor.Knowledge.{HasEnded}
use kform.Executor.Matrix.{init-channels}
use kform.Executor.Order.{IsClosed, run_ordered, run_success}
use kform.Executor.System.{
  Choice, Event, collect, deliver, ended, ends, gone, meet, run, start, started, tick,
}

program : Unit {0}
unfolding connect add_edge ends_of linked insert lookup add contains list_beq keys has_key
    get_vertices vertex_exists get_up_vertexes get_down_vertexes init done_chs_of dep_chs_of run
    start
program = tt

abbrev in_order : Order
in_order n l = l

in_order-IsOrder : IsOrder in_order
in_order-IsOrder = record { visits = λ n l x. refl }

abbrev vertices_only : Dag ℕ
vertices_only = record {
  vertices = (root, 0) ∷ (str "a", 1) ∷ [];
  down_edges = [];
  up_edges = [];
  vertex_depth = [];
}

-- root → a
abbrev pair : Dag ℕ
unfolding connect
pair = connect vertices_only root (str "a")

abbrev context : List Str → List Str → ExecContext
context done deps = record { done_chs = done; dep_chs = deps; deps = deps }

abbrev pair_map : ExecMap
pair_map = (str "a", context [] (root ∷ [])) ∷ (root, context (str "a" ∷ []) []) ∷ []

pair_channels : init (in_order 0) pair ≡ some pair_map
unfolding program pair
pair_channels = refl

abbrev schedule : List Choice
schedule =
    tick 0
    ∷ tick 0
    ∷ tick 0
    ∷ tick 1
    ∷ tick 1
    ∷ tick 2
    ∷ tick 2
    ∷ tick 2
    ∷ tick 3
    ∷ ends 1 true
    ∷ meet 1 3
    ∷ tick 1
    ∷ tick 1
    ∷ tick 3
    ∷ ends 3 true
    ∷ tick 3
    ∷ deliver 1 0
    ∷ deliver 3 0
    ∷ tick 0
    ∷ []

abbrev pair_log : List Event
pair_log = ended (str "a") true ∷ started (str "a") ∷ ended root true ∷ started root ∷ []

pair_runs :
    ((run in_order pair pair_map schedule (start root)).log ≡ pair_log)
    × ((run in_order pair pair_map schedule (start root)).result ≡ some true)
unfolding program pair
pair_runs = (refl, refl)

pair-IsClosed : IsClosed pair
unfolding program pair
pair-IsClosed w u known l = ground (arith, eq_iff (str "a") w, eq_iff root u)

init-channels_example :
    (m : ExecMap) × (init (in_order 0) pair ≡ some m)
    × ((u w : Str)
        → (contains (done_chs_of m u) w ≡ (vertex_exists pair w && linked (pair.up_edges) w u))
          × (contains (dep_chs_of m w) u ≡ (vertex_exists pair w && linked (pair.up_edges) w u)))
init-channels_example = init-channels (in_order 0) pair (λ l x. refl) pair-IsClosed

run_ordered_example : HasEnded (ended root true ∷ started root ∷ []) root
unfolding program pair
run_ordered_example =
    run_ordered in_order pair pair_map root schedule in_order-IsOrder pair-IsClosed pair_channels
      (ended (str "a") true ∷ []) (ended root true ∷ started root ∷ []) (str "a") root pair_runs.0
      refl refl

run_success_example :
    Memᴰ (ended (str "a") true) (run in_order pair pair_map schedule (start root)).log
unfolding program pair
run_success_example =
    run_success in_order pair pair_map root schedule in_order-IsOrder pair_runs.1 (str "a") refl

-- A block that fails: the block that depends on it starts all the same, since `waitDependencies`
-- looks only at whether something was received.
failing : List Choice
failing =
    tick 0
    ∷ tick 0
    ∷ tick 0
    ∷ tick 1
    ∷ tick 1
    ∷ tick 2
    ∷ tick 2
    ∷ tick 2
    ∷ tick 3
    ∷ ends 1 false
    ∷ meet 1 3
    ∷ tick 3
    ∷ []

failing_goes_on :
    (run in_order pair pair_map failing (start root)).log
    ≡ started (str "a") ∷ ended root false ∷ started root ∷ []
unfolding program pair failing
failing_goes_on = refl

-- root → x → v and root → y → v
abbrev diamond : Dag ℕ
unfolding connect
diamond =
    let d = record vertices_only {
      vertices = (root, 0) ∷ (str "x", 1) ∷ (str "y", 2) ∷ (str "v", 3) ∷ [];
    } in
    connect (connect (connect (connect d root (str "x")) root (str "y")) (str "x") (str "v"))
      (str "y") (str "v")

abbrev swap : List Str → List Str
swap (x ∷ y ∷ []) = y ∷ x ∷ []
swap l = l

-- The 18th `range`, that of the second goroutine of `v`, visits the other channel first.
abbrev late_swap : Order
late_swap n l = if nat_beq n 17 then swap l else l

abbrev diamond_map : ExecMap
diamond_map =
    (str "v", context [] (str "x" ∷ str "y" ∷ []))
    ∷ (str "y", context (str "v" ∷ []) (root ∷ []))
    ∷ (str "x", context (str "v" ∷ []) (root ∷ []))
    ∷ (root, context (str "x" ∷ str "y" ∷ []) [])
    ∷ []

diamond_channels : init (late_swap 0) diamond ≡ some diamond_map
unfolding program diamond
diamond_channels = refl

-- Both walks test `v` before either marks it.
racing : List Choice
racing =
    tick 0
    ∷ tick 0
    ∷ tick 0
    ∷ tick 1
    ∷ tick 1
    ∷ ends 1 true
    ∷ tick 2
    ∷ tick 2
    ∷ tick 2
    ∷ tick 3
    ∷ tick 3
    ∷ tick 3
    ∷ tick 5
    ∷ tick 7
    ∷ tick 5
    ∷ tick 7
    ∷ tick 5
    ∷ tick 7
    ∷ tick 4
    ∷ meet 1 4
    ∷ tick 1
    ∷ tick 4
    ∷ tick 6
    ∷ meet 1 6
    ∷ tick 1
    ∷ tick 6
    ∷ tick 1
    ∷ deliver 1 0
    ∷ tick 1
    ∷ ends 4 true
    ∷ ends 6 true
    ∷ tick 8
    ∷ tick 9
    ∷ meet 4 8
    ∷ meet 6 9
    ∷ tick 4
    ∷ tick 6
    ∷ tick 4
    ∷ tick 6
    ∷ tick 8
    ∷ tick 9
    ∷ deliver 4 0
    ∷ tick 4
    ∷ deliver 6 0
    ∷ tick 6
    ∷ []

-- Each goroutine of `v` has read one channel, and found the other one closed: nobody runs `v` any
-- more, and the main task waits for it.
racing_loses :
    ((run late_swap diamond diamond_map racing (start root)).tasks
      ≡ collect (str "v" ∷ []) ∷ gone ∷ gone ∷ gone ∷ gone ∷ gone ∷ gone ∷ gone ∷ gone ∷ gone ∷ [])
    × ((run late_swap diamond diamond_map racing (start root)).result ≡ none)
unfolding program diamond racing
racing_loses = (refl, refl)
