-- ===== src/Ignore/Parsed.antt =====
-- The rules that `Parse` reads of the lines of an ignore file. Its callers take the rules also when
-- there is an error.
use kform.Shared.{
  Bool, List, Option, Str, [], contains_text, false, has_prefix, if◌then◌else◌, none, not, some,
  str, str_eq, true, ◌&&◌, ◌++◌, ◌==◌, ◌||◌, ◌∷◌,
}
use kform.Ignore.Rules.{Pattern, Rules, pattern_of, trim_space}

-- The line is neither blank nor a comment.
unfoldable pub is_rule : Str → Bool
unfolding trim_space has_prefix
is_rule line = let text = trim_space line in not (text == [] || has_prefix text (str "#"))

module _ (glob : Str → Str → Option Bool) where
  unfoldable pub is_refused : Str → Bool
  unfolding is_rule trim_space contains_text
  is_refused line =
      let text = trim_space line in
      is_rule line
      && (contains_text text (str "**")
          || elim (glob text (str "abc")) [ none ↦ true | some _ ↦ false ])

  -- The patterns of the lines up to the first one that is refused.
  unfoldable pub patterns_until : List Str → List Pattern
  unfolding is_refused is_rule pattern_of trim_space
  patterns_until [] = []
  patterns_until (line ∷ lines) =
      let rest = patterns_until lines in
      if is_refused line
      then []
      else if is_rule line
      then pattern_of (trim_space line) ∷ rest
      else rest

  -- The rules after a line that is not refused.
  abbrev with_line : Rules → Str → Rules
  with_line r line =
      if is_rule line
      then record r { patterns = r.patterns ++ pattern_of (trim_space line) ∷ [] }
      else r

  abbrev with_patterns : Rules → List Pattern → Rules
  with_patterns r ps = record r { patterns = ps }
