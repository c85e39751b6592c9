-- ===== src/Executor/Matrix.antt =====
-- The channel matrix that `init` of pkg/exec/executor/dag_executor.go builds.
use kform.Shared.{
  Assoc, List, Option-cases, Str, [], add, arith, contains, contains-add, contains-head,
  contains-keys, contains-tail, eq_iff, has_key, inl, inr, insert, keys, lookup, lookup-insert,
  refl, some, str_eq, sym, true, ◌&&◌, ◌==◌, ◌||◌, ◌∙◌, ◌∷◌, ◌≡◌,
}
use kform.Dag.Edges.{Dag, ends_of, get_up_vertexes, get_vertices, vertex_exists}
use kform.Dag.Laws.{linked}
use kform.Executor.Channels.{
  ExecContext, ExecMap, add_dep_ch, add_done_ch, dep_chs_of, done_chs_of, init, link_all, link_deps,
  new_contexts, set_deps,
}

-- `m'` is `m` with the channel `u` → `v` for every `u` of `us`, and nothing else of it changes.
record Links (m m' : ExecMap) (v : Str) (us : List Str) : Type 0 where
  known : (w : Str) → has_key w m' ≡ has_key w m
  sent :
      (u w : Str)
      → contains (done_chs_of m' u) w ≡ (contains (done_chs_of m u) w || (contains us u && v == w))
  awaited :
      (u w : Str)
      → contains (dep_chs_of m' w) u ≡ (contains (dep_chs_of m w) u || (contains us u && v == w))

has_key-eq_true :
    (v : Str) (m : ExecMap) → has_key v m ≡ true → (c : ExecContext) × (lookup v m ≡ some c)
unfolding has_key
has_key-eq_true v m h = elim (Option-cases (lookup v m)) [ inl missing ↦ cc | inr found ↦ found ]

abbrev sender : Str → ExecContext → ExecContext
sender v c = record c { done_chs = add v c.done_chs }

abbrev receiver : Str → ExecContext → ExecContext
receiver dep e = record e { dep_chs = add dep e.dep_chs }

abbrev between : ExecMap → Str → Str → ExecContext → ExecMap
between m v dep c = insert dep (sender v c) m

-- One round of the inner loop.
link_one :
    (m : ExecMap) (v dep : Str) (c e : ExecContext)
    → lookup dep m ≡ some c
    → lookup v (between m v dep c) ≡ some e
    → Links m (insert v (receiver dep e) (between m v dep c)) v (dep ∷ [])
unfolding has_key done_chs_of dep_chs_of contains
link_one m v dep c e found_dep found_v = record {
  known = λ w. ground (
    arith,
    eq_iff v w,
    eq_iff dep w,
    lookup-insert dep w (sender v c) m,
    lookup-insert v w (receiver dep e) (between m v dep c),
  );
  sent = λ u w. ground (
    arith,
    eq_iff v u,
    eq_iff dep u,
    eq_iff v w,
    contains-add v w c.done_chs,
    lookup-insert dep u (sender v c) m,
    lookup-insert dep v (sender v c) m,
    lookup-insert v u (receiver dep e) (between m v dep c),
  );
  awaited = λ u w. ground (
    arith,
    eq_iff v w,
    eq_iff dep w,
    eq_iff dep u,
    contains-add dep u e.dep_chs,
    lookup-insert dep w (sender v c) m,
    lookup-insert dep v (sender v c) m,
    lookup-insert v w (receiver dep e) (between m v dep c),
  );
}

add_done_ch-some :
    (m : ExecMap) (at n : Str) (c : ExecContext)
    → lookup at m ≡ some c
    → add_done_ch m at n ≡ some (insert at (record c { done_chs = add n c.done_chs }) m)
unfolding add_done_ch
add_done_ch-some m at n c e = ground arith

add_dep_ch-some :
    (m : ExecMap) (at n : Str) (c : ExecContext)
    → lookup at m ≡ some c
    → add_dep_ch m at n ≡ some (insert at (record c { dep_chs = add n c.dep_chs }) m)
unfolding add_dep_ch
add_dep_ch-some m at n c e = ground arith

link_deps-cons :
    (v dep : Str) (deps : List Str) (m m' m'' : ExecMap)
    → add_done_ch m dep v ≡ some m'
    → add_dep_ch m' v dep ≡ some m''
    → link_deps v (dep ∷ deps) m ≡ link_deps v deps m''
unfolding link_deps
link_deps-cons v dep deps m m' m'' e f = ground arith

Links-cons :
    (m m' m'' : ExecMap) (v dep : Str) (deps : List Str)
    → Links m m' v (dep ∷ [])
    → Links m' m'' v deps
    → Links m m'' v (dep ∷ deps)
unfolding contains
Links-cons m m' m'' v dep deps h k = record {
  known = λ w. k.known w ∙ h.known w;
  sent = λ u w. ground (arith, h.sent u w, k.sent u w);
  awaited = λ u w. ground (arith, h.awaited u w, k.awaited u w);
}

has_key-insert :
    {V : Type 0} (k j : Str) (v : V) (m : Assoc Str V)
    → has_key j (insert k v m) ≡ (k == j || has_key j m)
unfolding has_key
has_key-insert k j v m = ground (arith, lookup-insert k j v m)

-- The inner loop, where the vertex and its dependencies all have a context.
link_deps_lem :
    (v : Str) (deps : List Str) (m : ExecMap)
    → has_key v m ≡ true
    → ((u : Str) → contains deps u ≡ true → has_key u m ≡ true)
    → (m' : ExecMap) × (link_deps v deps m ≡ some m') × Links m m' v deps
unfolding link_deps contains
link_deps_lem v [] m hv hd = (
  m,
  refl,
  record { known = λ w. refl; sent = λ u w. ground arith; awaited = λ u w. ground arith },
)
link_deps_lem v (dep ∷ deps) m hv hd =
    let (c, found) = has_key-eq_true dep m (hd dep (contains-head dep deps)) in
    let (e, found') =
      has_key-eq_true v (between m v dep c) (ground (arith, has_key-insert dep v (sender v c) m)) in
    let m₁ = insert v (receiver dep e) (between m v dep c) in
    let one = link_one m v dep c e found found' in
    let (m', went, rest) =
      link_deps_lem v deps m₁ (one.known v ∙ hv)
        (λ u l. one.known u ∙ hd u (contains-tail dep u deps l)) in
    (
      m',
      link_deps-cons v dep deps m (between m v dep c) m₁ (add_done_ch-some m dep v c found)
            (add_dep_ch-some (between m v dep c) v dep e found')
          ∙ went,
      Links-cons m m₁ m' v dep deps one rest,
    )

module _ {ℓ} {V : Type ℓ} (ord : List Str → List Str) (d : Dag V) where
  -- `m'` is `m` with every channel into a vertex of `vs`.
  record LinksAll (m m' : ExecMap) (vs : List Str) : Type 0 where
    known : (w : Str) → has_key w m' ≡ has_key w m
    sent :
        (u w : Str)
        → contains (done_chs_of m' u) w
          ≡ (contains (done_chs_of m u) w || (contains vs w && linked d.up_edges w u))
    awaited :
        (u w : Str)
        → contains (dep_chs_of m' w) u
          ≡ (contains (dep_chs_of m w) u || (contains vs w && linked d.up_edges w u))

  set_deps_lem :
      (m : ExecMap) (v : Str) (names : List Str)
      → has_key v m ≡ true
      → (m' : ExecMap) × (set_deps m v names ≡ some m') × Links m m' v []
  unfolding set_deps done_chs_of dep_chs_of contains
  set_deps_lem m v names h =
      let (c, found) = has_key-eq_true v m h in
      let c' : ExecContext = record c { deps = names } in
      (
        insert v c' m,
        ground arith,
        record {
          known = λ w. ground (arith, eq_iff v w, has_key-insert v w c' m, found);
          sent = λ u w. ground (arith, eq_iff v u, lookup-insert v u c' m);
          awaited = λ u w. ground (arith, eq_iff v w, lookup-insert v w c' m);
        },
      )

  link_all_lem :
      (visits : (l : List Str) (x : Str) → contains (ord l) x ≡ contains l x) (vs : List Str)
      (m : ExecMap)
      → ((v : Str) → contains vs v ≡ true → has_key v m ≡ true)
      → ((v u : Str) → contains vs v ≡ true → linked d.up_edges v u ≡ true → has_key u m ≡ true)
      → (m' : ExecMap) × (link_all ord d vs m ≡ some m') × LinksAll m m' vs
  unfolding link_all get_up_vertexes linked contains
  link_all_lem visits [] m hv hd = (
    m,
    refl,
    record { known = λ w. refl; sent = λ u w. ground arith; awaited = λ u w. ground arith },
  )
  link_all_lem visits (v ∷ vs) m hv hd =
      let ups = get_up_vertexes ord d v in
      let known_v = hv v (contains-head v vs) in
      let (m₁, went, one) =
        link_deps_lem v ups m known_v (λ u l. hd v u (contains-head v vs) (sym (visits _ u) ∙ l)) in
      let (m₂, went', two) = set_deps_lem m₁ v ups (one.known v ∙ known_v) in
      let (m', ends, rest) =
        link_all_lem visits vs m₂ (λ w l. two.known w ∙ one.known w ∙ hv w (contains-tail v w vs l))
          (λ w u l e. two.known u ∙ one.known u ∙ hd w u (contains-tail v w vs l) e) in
      (
        m',
        ground arith,
        record {
          known = λ w. rest.known w ∙ two.known w ∙ one.known w;
          sent = λ u w. ground (
            arith,
            eq_iff v w,
            rest.sent u w,
            two.sent u w,
            one.sent u w,
            visits (ends_of d.up_edges v) u,
          );
          awaited = λ u w. ground (
            arith,
            eq_iff v w,
            rest.awaited u w,
            two.awaited u w,
            one.awaited u w,
            visits (ends_of d.up_edges v) u,
          );
        },
      )

new_contexts_lem :
    (vs : List Str) (u : Str)
    → (has_key u (new_contexts vs) ≡ contains vs u)
      × (done_chs_of (new_contexts vs) u ≡ [])
      × (dep_chs_of (new_contexts vs) u ≡ [])
unfolding new_contexts has_key done_chs_of dep_chs_of contains
new_contexts_lem [] u = (refl, refl, refl)
new_contexts_lem (v ∷ vs) u = ground (
  arith,
  eq_iff v u,
  new_contexts_lem vs u,
  lookup-insert v u (record { done_chs = []; dep_chs = []; deps = [] }) (new_contexts vs),
)

-- If every dependency of a vertex is a vertex, `init` does not fail, and there is a channel from
-- `u` to `w` on both sides exactly if `w` is a vertex that depends on `u`.
pub init-channels {ℓ} :
    {V : Type ℓ} (ord : List Str → List Str) (d : Dag V)
    → ((l : List Str) (x : Str) → contains (ord l) x ≡ contains l x)
    → ((w u : Str)
        → vertex_exists d w ≡ true
        → linked (d.up_edges) w u ≡ true
        → vertex_exists d u ≡ true)
    → (m : ExecMap) × (init ord d ≡ some m)
      × ((u w : Str)
          → (contains (done_chs_of m u) w ≡ (vertex_exists d w && linked (d.up_edges) w u))
            × (contains (dep_chs_of m w) u ≡ (vertex_exists d w && linked (d.up_edges) w u)))
unfolding init vertex_exists get_vertices contains
init-channels ord d visits closed =
    let vs = ord (keys d.vertices) in
    let known : (v : Str) → contains vs v ≡ has_key v d.vertices =
      λ v. visits (keys d.vertices) v ∙ contains-keys v d.vertices in
    let (m, made, all) =
      link_all_lem ord d visits vs (new_contexts vs) (λ v l. (new_contexts_lem vs v).0 ∙ l)
        (λ w u l e. (new_contexts_lem vs u).0 ∙ known u ∙ closed w u (sym (known w) ∙ l) e) in
    (
      m,
      made,
      λ u w. (
        ground (arith, all.sent u w, new_contexts_lem vs u, known w),
        ground (arith, all.awaited u w, new_contexts_lem vs w, known w),
      ),
    )
