-- ===== src/Executor/System.antt =====
-- pkg/exec/executor: the goroutines of one `Run`, as a step function. A task is a goroutine, with
-- the place that it has come to; a schedule is a list of choices of who goes on.
-- The channels have no buffer: a send and its receipt are one step of two tasks (`meet`,
-- `deliver`), and the `close` behind the send is the next step of the sender. The clocks, the
-- timeouts of five seconds after which a wait begins again, and the log lines are left out.
use kform.Shared.{
  Bool, List, Option, Str, [], add, contains, false, get_elem?, has_key, if◌then◌else◌, keys, map,
  none, not, set, some, str_eq, true, ℕ, ◌&&◌, ◌++◌, ◌+◌, ◌==◌, ◌||◌, ◌∷◌,
}
use kform.Dag.Edges.{Dag, get_down_vertexes, get_vertices}
use kform.Dag.Reduction.Walk.{Order}
use kform.Executor.Channels.{ExecMap, dep_chs_of, done_chs_of}

-- What a run leaves behind, the latest first.
pub data Event : Type 0 where
  -- `BlockRun` was called
  started : Str → Event
  -- `BlockRun` returned its result
  ended : Str → Bool → Event

pub data Task : Type 0 where
  -- `execute(from, init)`, before `isVisted`
  check : Str → Bool → Task
  -- before `updateVisted`
  mark : Str → Bool → Task
  -- before the loop over the down edges
  spread : Str → Bool → Task
  -- the goroutine of a vertex, before `waitDependencies`
  arrive : Str → Task
  -- in `waitDependencies`, with the channels that it still has to read
  wait : Str → List Str → Task
  -- in `BlockRun`
  block : Str → Task
  -- in `run`, with the channels that it still has to send its result on
  signal : Str → List Str → Bool → Task
  -- it has sent on the channel to the second vertex, and is about to close it
  closing : Str → Str → List Str → Bool → Task
  -- it is about to send on `doneFnCh`, and to close it
  report : Str → Bool → Task
  closing_fn : Str → Task
  -- `waitFunctionCompletion`, with the vertices that it still waits for
  collect : List Str → Task
  gone : Task

pub record Sys : Type 0 where
  pub tasks : List Task
  -- the vertices with a `visited` time, and those with a `finished` time
  pub visited : List Str
  pub finished : List Str
  -- is the channel from the first vertex to the second closed?
  pub closed : Str → Str → Bool
  pub fn_closed : List Str
  pub cancelled : Bool
  pub panicked : Bool
  -- what `Run` returned
  pub result : Option Bool
  -- how many maps were ranged over
  pub ranges : ℕ
  pub log : List Event

pub data Choice : Type 0 where
  -- the task goes on by itself, if it can
  tick : ℕ → Choice
  -- the `BlockRun` of the task returns
  ends : ℕ → Bool → Choice
  -- the first task sends its result to the second
  meet : ℕ → ℕ → Choice
  -- the first task sends its result to the main one, the second
  deliver : ℕ → ℕ → Choice
  -- the context is cancelled from outside
  cancel : Choice

abbrev pub put : Sys → ℕ → Task → Sys
put s i t = record s { tasks = set s.tasks i t }

abbrev pub panic : Sys → Sys
panic s = record s { panicked = true }

-- `r.cancelFn(); return false`
abbrev pub give_up : Sys → ℕ → Sys
give_up s i = record s { tasks = set s.tasks i gone; cancelled = true; result = some false }

unfoldable pub exchange : ℕ → ℕ → Task → Task → Sys → Sys
exchange i j (signal u (w ∷ rest) b) (wait v (x ∷ left)) s =
    if (u == x && w == v) && not (s.closed u v)
    then record s { tasks = set (set s.tasks i (closing u w rest b)) j (wait v left) }
    else s
exchange i j _ _ s = s

unfoldable pub hand_in : ℕ → ℕ → Task → Task → Sys → Sys
hand_in i j (report v b) (collect (w ∷ rest)) s =
    if v == w && not (contains s.fn_closed v)
    then if b
      then record s { tasks = set (set s.tasks i (closing_fn v)) j (collect rest) }
      else give_up (put s i (closing_fn v)) j
    else s
hand_in i j _ _ s = s

module _ (ord : Order) (m : ExecMap) where
  -- The end of `BlockRun`, and what `run` does before it sends.
  unfoldable pub finish : ℕ → Bool → Task → Sys → Sys
  finish i b (block v) s = record s {
    tasks = set s.tasks i (signal v (ord s.ranges (done_chs_of m v)) b);
    finished = add v s.finished;
    log = ended v b ∷ s.log;
    ranges = s.ranges + 1;
  }
  finish i b _ s = s

module _ {ℓ} {V : Type ℓ} (ord : Order) (d : Dag V) (m : ExecMap) where
  unfoldable pub perform : ℕ → Task → Sys → Sys
  perform i (check v first) s =
      if has_key v m
      then put s i (if contains s.visited v then spread v first else mark v first)
      else panic s
  perform i (mark v first) s = record s {
    visited = add v s.visited;
    tasks = set s.tasks i (spread v first) ++ arrive v ∷ [];
  }
  perform i (spread v first) s = record s {
    tasks =
        set s.tasks i (if first then collect (ord (s.ranges + 1) (keys (get_vertices d))) else gone)
        ++ map (λ down. check down false) (get_down_vertexes (ord s.ranges) d v);
    ranges = s.ranges + 2;
  }
  perform i (arrive v) s = record s {
    tasks = set s.tasks i (wait v (ord s.ranges (dep_chs_of m v)));
    ranges = s.ranges + 1;
  }
  perform i (wait v []) s = record s { tasks = set s.tasks i (block v); log = started v ∷ s.log }
  perform i (wait v (u ∷ rest)) s = if s.closed u v then put s i gone else s
  perform i (block v) s = s
  perform i (signal v [] b) s = put s i (report v b)
  perform i (signal v (w ∷ rest) b) s = if s.closed v w then panic s else s
  perform i (closing v w rest b) s = if s.closed v w then panic s else record s {
    tasks = set s.tasks i (signal v rest b);
    closed = λ x y. (v == x && w == y) || s.closed x y;
  }
  perform i (report v b) s = if contains s.fn_closed v then panic s else s
  perform i (closing_fn v) s =
      if contains s.fn_closed v
      then panic s
      else record s { tasks = set s.tasks i gone; fn_closed = add v s.fn_closed }
  perform i (collect []) s = record s { tasks = set s.tasks i gone; result = some true }
  perform i (collect (v ∷ rest)) s =
      if contains s.fn_closed v || s.cancelled then give_up s i else s
  perform i gone s = s

  unfoldable pub choose : Choice → Sys → Sys
  unfolding perform finish exchange hand_in
  choose (tick i) s = elim (get_elem? s.tasks i) [ none ↦ s | some t ↦ perform i t s ]
  choose (ends i b) s = elim (get_elem? s.tasks i) [ none ↦ s | some t ↦ finish ord m i b t s ]
  choose (meet i j) s = elim (get_elem? s.tasks i) [
    | none ↦ s
    | some t ↦ elim (get_elem? s.tasks j) [ none ↦ s | some u ↦ exchange i j t u s ]
  ]
  choose (deliver i j) s = elim (get_elem? s.tasks i) [
    | none ↦ s
    | some t ↦ elim (get_elem? s.tasks j) [ none ↦ s | some u ↦ hand_in i j t u s ]
  ]
  choose cancel s = record s { cancelled = true }

  -- A panic ends the program.
  unfoldable pub step : Choice → Sys → Sys
  unfolding choose
  step c s = if s.panicked then s else choose c s

  unfoldable pub run : List Choice → Sys → Sys
  unfolding step
  run [] s = s
  run (c ∷ cs) s = run cs (step c s)

-- `Run` has called `execute` on the vertex `From`.
unfoldable pub start : Str → Sys
start from = record {
  tasks = check from true ∷ [];
  visited = [];
  finished = [];
  closed = λ u v. false;
  fn_closed = [];
  cancelled = false;
  panicked = false;
  result = none;
  ranges = 0;
  log = [];
}
