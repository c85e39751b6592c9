-- ===== src/Executor/Invariant.antt =====
-- The invariant of every schedule of pkg/exec/executor: what each goroutine knows of the past, at
-- the place that it has come to.
use kform.Shared.{
  All, All-append, All-get_elem?, All-mono, All-set, Bool, Bool-cases, List, Memᴰ, Str, [], add,
  arith, contains, contains-keys, eq_iff, false, get_elem?, has_key, if◌then◌else◌, inl, inr, keys,
  map, not, refl, set, some, str_eq, subst, sym, true, ℕ, ◌&&◌, ◌+◌, ◌==◌, ◌||◌, ◌∙◌, ◌∷◌, ◌≡◌,
}
use kform.Dag.Edges.{Dag, get_down_vertexes, get_vertices, vertex_exists}
use kform.Dag.Reduction.Invariant.{IsOrder}
use kform.Dag.Reduction.Walk.{Order}
use kform.Executor.Channels.{ExecMap, dep_chs_of}
use kform.Executor.Knowledge.{AllEnded, Inv, IsOrdered, Knows, Knows-more}
use kform.Executor.Rules.{run_rule}
use kform.Executor.System.{
  Choice, Event, Sys, Task, arrive, block, check, closing, closing_fn, collect, ended, exchange,
  finish, give_up, gone, hand_in, mark, panic, perform, put, report, run, signal, spread, started,
  wait,
}

module _ {ℓ} {V : Type ℓ} (ord : Order) (order : IsOrder ord) (d : Dag V) (m : ExecMap) where
  abbrev depends_on : Str → Str → Bool
  depends_on v u = contains (dep_chs_of m v) u

  abbrev is_vertex_of : Str → Bool
  is_vertex_of v = vertex_exists d v

  abbrev KnowsOf : List Event → Task → Type 0
  KnowsOf = Knows depends_on is_vertex_of

  abbrev IsSound : Sys → Type 0
  IsSound = Inv depends_on is_vertex_of

  checks_known :
      (log : List Event) (xs : List Str) → All (KnowsOf log) (map (λ x. check x false) xs)
  checks_known log [] = tt
  checks_known log (x ∷ xs) = (tt, checks_known log xs)

  either_known :
      (log : List Event) (b : Bool) (t u : Task)
      → KnowsOf log t
      → KnowsOf log u
      → KnowsOf log (if b then t else u)
  either_known log true t u ht hu = ht
  either_known log false t u ht hu = hu

  -- The same events, with other tasks.
  with_tasks :
      (s s' : Sys)
      → IsSound s
      → s'.log ≡ s.log
      → All (KnowsOf s.log) s'.tasks
      → (s'.result ≡ some true → AllEnded depends_on is_vertex_of s.log)
      → IsSound s'
  with_tasks s s' h e ts r = record {
    returned = λ done. subst (AllEnded depends_on is_vertex_of) (sym e) (r done);
    known = subst (λ log. All (KnowsOf log) s'.tasks) (sym e) ts;
    ordered = subst (IsOrdered depends_on is_vertex_of) (sym e) h.ordered;
  }

  Inv-if : (b : Bool) (x y : Sys) → IsSound x → IsSound y → IsSound (if b then x else y)
  Inv-if true x y hx hy = hx
  Inv-if false x y hx hy = hy

  Inv-if_given :
      (b : Bool) (x y : Sys) → (b ≡ true → IsSound x) → IsSound y → IsSound (if b then x else y)
  Inv-if_given true x y hx hy = hx refl
  Inv-if_given false x y hx hy = hy

  module _ (i : ℕ) (s : Sys) (h : IsSound s) where
    replaced : (t : Task) → KnowsOf s.log t → All (KnowsOf s.log) (set s.tasks i t)
    replaced t k = All-set (KnowsOf s.log) s.tasks i t h.known k

    put-Inv : (t : Task) → KnowsOf s.log t → IsSound (put s i t)
    put-Inv t k = with_tasks s (put s i t) h refl (replaced t k) h.returned

    panic-Inv : IsSound (panic s)
    panic-Inv = with_tasks s (panic s) h refl h.known h.returned

    give_up-Inv : IsSound (give_up s i)
    give_up-Inv = with_tasks s (give_up s i) h refl (replaced gone tt) (λ e. cc)

    -- A block starts when its goroutine waits for nothing more.
    block_starts-Inv :
        (v : Str) → KnowsOf s.log (wait v []) → IsSound (perform ord d m i (wait v []) s)
    unfolding perform contains
    block_starts-Inv v k = record {
      known =
          All-mono (KnowsOf s.log) (KnowsOf (started v ∷ s.log)) _
            (Knows-more depends_on is_vertex_of (started v) s.log) (replaced (block v) tt);
      ordered = (λ u dep. elim (k u dep) [ inl none_left ↦ cc | inr ended_u ↦ ended_u ], h.ordered);
      returned = λ done v known. Memᴰ.tail (h.returned done v known);
    }

    perform-Inv : (t : Task) → KnowsOf s.log t → IsSound (perform ord d m i t s)
    unfolding perform contains get_vertices vertex_exists
    perform-Inv (check v first) k =
        Inv-if (has_key v m) _ _
          (put-Inv (if contains s.visited v then spread v first else mark v first)
            (either_known s.log (contains s.visited v) (spread v first) (mark v first) tt tt))
          panic-Inv
    perform-Inv (mark v first) k =
        with_tasks s (perform ord d m i (mark v first) s) h refl
          (All-append (KnowsOf s.log) _ (arrive v ∷ []) (replaced (spread v first) tt) (tt, tt))
          h.returned
    perform-Inv (spread v first) k =
        with_tasks s (perform ord d m i (spread v first) s) h refl
          (All-append (KnowsOf s.log) _ _
            (replaced _ (
              either_known s.log first (collect (ord (s.ranges + 1) (keys (get_vertices d)))) gone
                (λ v known.
                  inl (order.visits (s.ranges + 1) _ v ∙ contains-keys v d.vertices ∙ known))
                tt))
            (checks_known s.log (get_down_vertexes (ord s.ranges) d v)))
          h.returned
    perform-Inv (arrive v) k =
        with_tasks s (perform ord d m i (arrive v) s) h refl
          (replaced (wait v (ord s.ranges (dep_chs_of m v)))
            (λ u dep. inl (order.visits s.ranges (dep_chs_of m v) u ∙ dep)))
          h.returned
    perform-Inv (wait v []) k = block_starts-Inv v k
    perform-Inv (wait v (u ∷ rest)) k = Inv-if (s.closed u v) (put s i gone) s (put-Inv gone tt) h
    perform-Inv (block v) k = h
    perform-Inv (signal v [] b) k = put-Inv (report v b) k
    perform-Inv (signal v (w ∷ rest) b) k = Inv-if (s.closed v w) (panic s) s panic-Inv h
    perform-Inv (closing v w rest b) k = Inv-if (s.closed v w) (panic s) _ panic-Inv (
        with_tasks s
          (record s {
            tasks = set s.tasks i (signal v rest b);
            closed = λ x y. (v == x && w == y) || s.closed x y;
          })
          h refl (replaced (signal v rest b) k) h.returned)
    perform-Inv (report v b) k = Inv-if (contains s.fn_closed v) (panic s) s panic-Inv h
    perform-Inv (closing_fn v) k = Inv-if (contains s.fn_closed v) (panic s) _ panic-Inv (
        with_tasks s (record s { tasks = set s.tasks i gone; fn_closed = add v s.fn_closed }) h refl
          (replaced gone tt) h.returned)
    perform-Inv (collect []) k =
        with_tasks s (record s { tasks = set s.tasks i gone; result = some true }) h refl
          (replaced gone tt) (λ done v known. elim (k v known) [ inl none_left ↦ cc | inr m ↦ m ])
    perform-Inv (collect (v ∷ rest)) k =
        Inv-if (contains s.fn_closed v || s.cancelled) (give_up s i) s give_up-Inv h
    perform-Inv gone k = h

    finish-Inv : (b : Bool) (t : Task) → IsSound (finish ord m i b t s)
    unfolding finish
    finish-Inv b (block v) = record {
      known =
          All-set (KnowsOf (ended v b ∷ s.log)) s.tasks i _
            (All-mono (KnowsOf s.log) (KnowsOf (ended v b ∷ s.log)) s.tasks
              (Knows-more depends_on is_vertex_of (ended v b) s.log) h.known)
            (Memᴰ.head refl);
      ordered = h.ordered;
      returned = λ done v known. Memᴰ.tail (h.returned done v known);
    }
    finish-Inv b _ = h

    -- A waiting task is told of the end of one more dependency.
    exchange-Inv :
        (j : ℕ) (t t' : Task) → KnowsOf s.log t → KnowsOf s.log t' → IsSound (exchange i j t t' s)
    unfolding exchange contains
    exchange-Inv j (signal u (w ∷ rest) b) (wait v (x ∷ left)) k k' =
        Inv-if_given ((u == x && w == v) && not (s.closed u v)) _ s
          (λ meet_there.
            with_tasks s
              (record s { tasks = set (set s.tasks i (closing u w rest b)) j (wait v left) }) h refl
              (All-set (KnowsOf s.log) _ j (wait v left) (replaced (closing u w rest b) k) (λ y dep.
                elim (k' y dep) [
                  | inr done ↦ inr done
                  | inl listed ↦ elim (Bool-cases (x == y)) [
                    | inl same ↦ inr (
                      b,
                      subst (λ z. Memᴰ (ended z b) s.log) (ground (arith, eq_iff u x, eq_iff x y))
                          k,
                    )
                    | inr other ↦ inl (ground arith)
                  ]
                ]))
              h.returned)
          h
    exchange-Inv j _ _ k k' = h

    -- The main task hears of the good end of one more vertex.
    one_less :
        (v w : Str) (rest : List Str)
        → v ≡ w
        → Memᴰ (ended v true) s.log
        → KnowsOf s.log (collect (w ∷ rest))
        → KnowsOf s.log (collect rest)
    unfolding contains
    one_less v w rest e m k y known = elim (k y known) [
      | inr done ↦ inr done
      | inl listed ↦ elim (Bool-cases (w == y)) [
        | inl same ↦ inr (subst (λ z. Memᴰ (ended z true) s.log) (e ∙ (eq_iff w y).0 same) m)
        | inr other ↦ inl (ground arith)
      ]
    ]

    hand_in-Inv :
        (j : ℕ) (t t' : Task) → KnowsOf s.log t → KnowsOf s.log t' → IsSound (hand_in i j t t' s)
    unfolding hand_in
    hand_in-Inv j (report v true) (collect (w ∷ rest)) k k' =
        Inv-if_given (v == w && not (contains s.fn_closed v)) _ s
          (λ there.
            with_tasks s (record s { tasks = set (set s.tasks i (closing_fn v)) j (collect rest) })
              h refl
              (All-set (KnowsOf s.log) _ j (collect rest) (replaced (closing_fn v) tt)
                (one_less v w rest (ground (arith, eq_iff v w)) k k'))
              h.returned)
          h
    hand_in-Inv j (report v false) (collect (w ∷ rest)) k k' =
        Inv-if (v == w && not (contains s.fn_closed v)) _ s
          (with_tasks s (give_up (put s i (closing_fn v)) j) h refl
            (All-set (KnowsOf s.log) _ j gone (replaced (closing_fn v) tt) tt) (λ e. cc))
          h
    hand_in-Inv j _ _ k k' = h

    task_known : (k : ℕ) (t : Task) → get_elem? s.tasks k ≡ some t → KnowsOf s.log t
    task_known k t e = All-get_elem? (KnowsOf s.log) s.tasks k t e h.known

  pub run-Inv : (cs : List Choice) (s : Sys) → IsSound s → IsSound (run ord d m cs s)
  run-Inv = run_rule ord d m (IsSound) (record {
    perform_kept = λ i t s e h. perform-Inv i s h t (task_known i s h i t e);
    finish_kept = λ i b t s e h. finish-Inv i s h b t;
    exchange_kept = λ i j t u s e e' h.
        exchange-Inv i s h j t u (task_known i s h i t e) (task_known i s h j u e');
    hand_in_kept = λ i j t u s e e' h.
        hand_in-Inv i s h j t u (task_known i s h i t e) (task_known i s h j u e');
    cancel_kept = λ s h. record { known = h.known; ordered = h.ordered; returned = h.returned };
  })
