-- ===== src/Ignore/Examples.antt =====
-- Examples for the ignore rules; `glob` knows rules without wildcards and `*`.
use kform.Shared.{
  Bool, List, Option, Str, [], any, contains_text, false, has_prefix, list_beq, not, refl, some,
  split, str, str_eq, true, ◌&&◌, ◌==◌, ◌||◌, ◌∷◌, ◌≡◌,
}
use kform.Ignore.Ignored.{ignore_each, ignore_each-ignored, ignored_by, is_root}
use kform.Ignore.Rules.{Rules, double_star, ignore, parse, pattern_of, trim_prefix}

abbrev glob : Str → Str → Option Bool
glob rule name = some (rule == str "*" || rule == name)

abbrev lines : List Str
lines = str "# rules" ∷ str "" ∷ str "/docs" ∷ str " .git/ " ∷ str "a**" ∷ str "never.yaml" ∷ []

abbrev asked : List (Str × Bool)
asked = (str "docs", true) ∷ (str "a.yaml", false) ∷ []

-- The example runs on a file whose fifth line is refused.
fifth_refused : (parse glob lines).1 ≡ some double_star
unfolding parse contains_text has_prefix list_beq
fifth_refused = refl

never_read : (ignore glob ((parse glob lines).0) (str "never.yaml") false).0 ≡ false
unfolding parse ignore contains_text has_prefix list_beq split
never_read = refl

-- A rule with '!' makes every path that it does not match ignored.
only_kept : (ignore glob ((parse glob (str "!keep.yaml" ∷ [])).0) (str "other.yaml") false).0 ≡ true
unfolding parse ignore contains_text has_prefix list_beq split
only_kept = refl

-- The ignore file of rules that were parsed is not ignored itself.
file_read : (ignore glob ((parse glob []).0) (str ".ignore") false).0 ≡ false
unfolding parse ignore list_beq
file_read = refl

-- The rule "//docs" first ignores "/docs", then "docs".
changing :
    let r = (parse glob (str "//docs" ∷ [])).0 in
    let s = ignore glob r (str "docs") true in
    (s.0 ≡ false) × ((ignore glob (s.1) (str "docs") true).0 ≡ true)
unfolding parse ignore contains_text has_prefix list_beq split
changing = (refl, refl)

abbrev two_rules : Rules
two_rules = record {
  ignore_file = str ".ignore";
  patterns = pattern_of (str "!a.yaml") ∷ pattern_of (str "/docs/") ∷ [];
}

ignore_each-ignored_example :
    (ignore glob (ignore_each glob two_rules asked) (str "b.yaml") false).0 ≡ (
      not (is_root (str "b.yaml"))
      && (str "b.yaml" == two_rules.ignore_file
          || any (ignored_by glob (str "b.yaml") false) (two_rules.patterns)))
unfolding pattern_of trim_prefix has_prefix contains_text list_beq
ignore_each-ignored_example =
    ignore_each-ignored glob two_rules asked (str "b.yaml") false (refl, (refl, tt))
