-- ===== src/Executor/Knowledge.antt =====
-- What the goroutines of pkg/exec/executor know of the past.
use kform.Shared.{
  All, Bool, List, Memᴰ, Str, [], contains, inl, inr, some, str_eq, true, ◌∷◌, ◌≡◌, ◌⊎◌,
}
use kform.Executor.System.{
  Event, Sys, Task, check, closing, collect, ended, report, signal, start, started, wait,
}

-- `BlockRun` of the vertex has returned.
abbrev pub HasEnded : List Event → Str → Type 0
HasEnded log v = (b : Bool) × Memᴰ (ended v b) log

module _ (depends : Str → Str → Bool) (is_vertex : Str → Bool) where
  -- At every start, with the events before it behind it, each dependency has ended.
  abbrev pub IsOrdered : List Event → Type 0
  IsOrdered [] = Unit
  IsOrdered (started v ∷ log) = ((u : Str) → depends v u ≡ true → HasEnded log u) × IsOrdered log
  IsOrdered (ended v b ∷ log) = IsOrdered log

  -- What a task knows: a waiting one has been told of all that it no longer waits for, and one that
  -- sends has ended.
  abbrev pub Knows : List Event → Task → Type 0
  Knows log (wait v left) =
      (u : Str) → depends v u ≡ true → (contains left u ≡ true) ⊎ HasEnded log u
  Knows log (signal v rest b) = Memᴰ (ended v b) log
  Knows log (closing v w rest b) = Memᴰ (ended v b) log
  Knows log (report v b) = Memᴰ (ended v b) log
  Knows log (collect rest) =
      (v : Str) → is_vertex v ≡ true → (contains rest v ≡ true) ⊎ Memᴰ (ended v true) log
  Knows log _ = Unit

  -- Every block has ended well.
  abbrev pub AllEnded : List Event → Type 0
  AllEnded log = (v : Str) → is_vertex v ≡ true → Memᴰ (ended v true) log

  pub Knows-more : (e : Event) (log : List Event) (t : Task) → Knows log t → Knows (e ∷ log) t
  Knows-more e log (check v first) h = tt
  Knows-more e log (wait v left) h =
      λ u dep. elim (h u dep) [ inl still ↦ inl still | inr (b, m) ↦ inr (b, Memᴰ.tail m) ]
  Knows-more e log (signal v rest b) h = Memᴰ.tail h
  Knows-more e log (closing v w rest b) h = Memᴰ.tail h
  Knows-more e log (report v b) h = Memᴰ.tail h
  Knows-more e log (collect rest) h =
      λ v known. elim (h v known) [ inl still ↦ inl still | inr m ↦ inr (Memᴰ.tail m) ]
  Knows-more e log _ h = tt

  pub record Inv (s : Sys) : Type 0 where
    pub known : All (Knows s.log) s.tasks
    pub ordered : IsOrdered s.log
    pub returned : s.result ≡ some true → AllEnded s.log

  pub start-Inv : (from : Str) → Inv (start from)
  unfolding start
  start-Inv from = record { known = (tt, tt); ordered = tt; returned = λ e. cc }
