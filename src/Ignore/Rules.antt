-- ===== src/Ignore/Rules.antt =====
-- pkg/pkgio/ignore: the rules that say which files of a directory are no part of a package.
-- `filepath.Match` is a parameter, none of it is the error of a bad pattern; texts are ASCII.
use kform.Shared.{
  Bool, List, Option, Str, [], contains_text, false, has_prefix, if◌then◌else◌, leb, nat_beq, none,
  not, some, split, str, str_eq, suc, true, zero, ℕ, ◌&&◌, ◌++◌, ◌==◌, ◌||◌, ◌∷◌,
}

-- What a rule is matched with: the path without the first '/' of the rule, the path, or the last
-- part of the path.
pub data Matcher : Type 0 where
  rooted : Matcher
  structural : Matcher
  file_name : Matcher

-- The function `match` of a pattern closes over `rule`, and can change it.
pub record Pattern : Type 0 where
  pub raw : Str
  pub rule : Str
  pub matcher : Matcher
  pub negate : Bool
  pub must_dir : Bool

pub record Rules : Type 0 where
  pub ignore_file : Str
  pub patterns : List Pattern

pub data RuleError : Type 0 where
  double_star : RuleError
  bad_pattern : RuleError

abbrev pub slash : ℕ
slash = 47

unfoldable pub is_space : ℕ → Bool
is_space c = nat_beq c 32 || leb 9 c && leb c 13

unfoldable pub trim_left : Str → Str
unfolding is_space
trim_left [] = []
trim_left (c ∷ s) = let rest = trim_left s in if is_space c then rest else c ∷ s

unfoldable pub trim_right : Str → Str
unfolding is_space
trim_right [] = []
trim_right (c ∷ s) = elim (trim_right s) [
  | [] ↦ if is_space c then [] else c ∷ []
  | d ∷ r ↦ c ∷ d ∷ r
]

-- `strings.TrimSpace`
unfoldable pub trim_space : Str → Str
unfolding trim_left trim_right
trim_space s = trim_right (trim_left s)

-- `s[n:]`
unfoldable pub bytes_after : ℕ → Str → Str
bytes_after zero s = s
bytes_after (suc n) [] = []
bytes_after (suc n) (c ∷ s) = bytes_after n s

-- `strings.TrimPrefix` and `strings.TrimSuffix` of one '/'.
unfoldable pub trim_prefix : Str → Str
unfolding has_prefix bytes_after
trim_prefix s = if has_prefix s (str "/") then bytes_after 1 s else s

unfoldable pub has_suffix : Str → Bool
has_suffix [] = false
has_suffix (c ∷ []) = nat_beq c slash
has_suffix (c ∷ d ∷ s) = has_suffix (d ∷ s)

unfoldable pub drop_last : Str → Str
drop_last [] = []
drop_last (c ∷ []) = []
drop_last (c ∷ d ∷ s) = c ∷ drop_last (d ∷ s)

unfoldable pub trim_suffix : Str → Str
unfolding has_suffix drop_last
trim_suffix s = let shorter = drop_last s in if has_suffix s then shorter else s

-- `filepath.Base`
unfoldable pub trim_slashes : Str → Str
trim_slashes [] = []
trim_slashes (c ∷ s) = elim (trim_slashes s) [
  | [] ↦ if nat_beq c slash then [] else c ∷ []
  | d ∷ r ↦ c ∷ d ∷ r
]

unfoldable pub last_part : List Str → Str
last_part [] = []
last_part (p ∷ []) = p
last_part (p ∷ q ∷ ps) = last_part (q ∷ ps)

unfoldable pub base : Str → Str
unfolding trim_slashes last_part split
base [] = str "."
base (c ∷ s) = elim (trim_slashes (c ∷ s)) [
  | [] ↦ str "/"
  | d ∷ r ↦ last_part (split slash (d ∷ r))
]

-- The end of `parseRule`: the kind of match of a rule without its '!' and its last '/'.
unfoldable pub matcher_of : Str → Matcher
unfolding has_prefix contains_text
matcher_of rule =
    if has_prefix rule (str "/")
    then rooted
    else if contains_text rule (str "/")
    then structural
    else file_name

unfoldable pub pattern_of : Str → Pattern
unfolding matcher_of trim_suffix has_suffix has_prefix bytes_after
pattern_of text =
    let negated = has_prefix text (str "!") in
    let positive = if negated then bytes_after 1 text else text in
    let rule = trim_suffix positive in
    record {
      raw = text;
      rule = rule;
      matcher = matcher_of rule;
      negate = negated;
      must_dir = has_suffix positive;
    }

-- A bad pattern matches nothing.
unfoldable pub holds : Option Bool → Bool
holds none = false
holds (some b) = b

abbrev mark : Str
mark = 239 ∷ 187 ∷ 191 ∷ []

-- The mark of UTF-8 is taken off the first line.
unfoldable pub trim_mark : List Str → List Str
unfolding has_prefix bytes_after
trim_mark [] = []
trim_mark (line ∷ lines) = (if has_prefix line mark then bytes_after 3 line else line) ∷ lines

module _ (glob : Str → Str → Option Bool) where
  unfoldable pub parse_pattern : Rules → Str → Rules × Option RuleError
  unfolding contains_text pattern_of
  parse_pattern r text =
      if contains_text text (str "**")
      then (r, some double_star)
      else elim (glob text (str "abc")) [
        | none ↦ (r, some bad_pattern)
        | some _ ↦ (record r { patterns = r.patterns ++ pattern_of text ∷ [] }, none)
      ]

  -- `parseRule`
  unfoldable pub parse_rule : Rules → Str → Rules × Option RuleError
  unfolding parse_pattern trim_space has_prefix
  parse_rule r line =
      let text = trim_space line in
      if text == [] || has_prefix text (str "#") then (r, none) else parse_pattern r text

  unfoldable pub parse_lines : Rules → List Str → Rules × Option RuleError
  unfolding parse_rule
  parse_lines r [] = (r, none)
  parse_lines r (line ∷ lines) =
      let s = parse_rule r line in
      elim (s.1) [ none ↦ parse_lines (s.0) lines | some e ↦ (s.0, some e) ]

  -- `Parse`: the rules do not get the name of the ignore file.
  unfoldable pub parse : List Str → Rules × Option RuleError
  unfolding parse_lines trim_mark
  parse lines = parse_lines (record { ignore_file = []; patterns = [] }) (trim_mark lines)

  unfoldable pub match_by : Matcher → Pattern → Str → Bool × Pattern
  unfolding holds base trim_prefix
  match_by rooted p path =
      let rule' = trim_prefix (p.rule) in (holds (glob rule' path), record p { rule = rule' })
  match_by structural p path = (holds (glob (p.rule) path), p)
  match_by file_name p path = (holds (glob (p.rule) (base path)), p)

  -- `match`
  unfoldable pub match_pattern : Pattern → Str → Bool × Pattern
  unfolding match_by
  match_pattern p path = match_by (p.matcher) p path

  -- The loop of `Ignore`, with the patterns that it leaves.
  unfoldable pub ignore_by : List Pattern → Str → Bool → Bool × List Pattern
  unfolding match_pattern
  ignore_by [] path is_dir = (false, [])
  ignore_by (p ∷ ps) path is_dir =
      let m = match_pattern p path in
      let rest = ignore_by ps path is_dir in
      if p.negate
      then (if p.must_dir && not is_dir
          then (true, p ∷ ps)
          else if not (m.0)
          then (true, m.1 ∷ ps)
          else (rest.0, m.1 ∷ rest.1))
      else (if p.must_dir && not is_dir
          then (rest.0, p ∷ rest.1)
          else if m.0
          then (true, m.1 ∷ ps)
          else (rest.0, m.1 ∷ rest.1))

  -- `Ignore`
  unfoldable pub ignore : Rules → Str → Bool → Bool × Rules
  unfolding ignore_by
  ignore r path is_dir =
      let s = ignore_by (r.patterns) path is_dir in
      if path == [] || path == str "." || path == str "./"
      then (false, r)
      else if path == r.ignore_file
      then (true, r)
      else (s.0, record r { patterns = s.1 })
