-- ===== src/Ignore/Ignored.antt =====
-- What the loop of `Ignore` finds, in any order of the patterns.
use kform.Shared.{
  All, Bool, Bool-cases, List, Option, Str, [], any, ap, arith, false, if◌then◌else◌, inl, inr, not,
  refl, str, str_eq, true, ◌&&◌, ◌==◌, ◌||◌, ◌∙◌, ◌∷◌, ◌≡◌,
}
use kform.Ignore.Rules.{
  Matcher, Pattern, Rules, file_name, holds, ignore, ignore_by, match_by, match_pattern, rooted,
  structural, trim_prefix,
}

-- The rule does not start with two slashes: a second match does not change it any more.
abbrev pub IsSteady : Pattern → Type 0
IsSteady p = trim_prefix (trim_prefix (p.rule)) ≡ trim_prefix (p.rule)

abbrev pub is_root : Str → Bool
is_root path = path == [] || path == str "." || path == str "./"

-- What holds of the patterns of both answers holds of those of the chosen one.
either :
    (P : List Pattern → Type 0) (b : Bool) (s t : Bool × List Pattern)
    → P (s.1)
    → P (t.1)
    → P ((if b then s else t).1)
either P true s t h k = h
either P false s t h k = k

module _ (glob : Str → Str → Option Bool) where
  -- The path is what the pattern is about.
  unfoldable pub applies : Pattern → Str → Bool → Bool
  unfolding match_pattern
  applies p path is_dir = (is_dir || not (p.must_dir)) && (match_pattern glob p path).0

  unfoldable pub ignored_by : Str → Bool → Pattern → Bool
  unfolding applies
  ignored_by path is_dir p = if p.negate then not (applies p path is_dir) else applies p path is_dir

  -- The rules after some paths.
  unfoldable pub ignore_each : Rules → List (Str × Bool) → Rules
  unfolding ignore
  ignore_each r [] = r
  ignore_each r ((path, is_dir) ∷ seen) = ignore_each ((ignore glob r path is_dir).1) seen

  ignore_by-any :
      (ps : List Pattern) (path : Str) (is_dir : Bool)
      → (ignore_by glob ps path is_dir).0 ≡ any (ignored_by path is_dir) ps
  unfolding ignore_by ignored_by applies
  ignore_by-any [] path is_dir = refl
  ignore_by-any (p ∷ ps) path is_dir = ground (arith, ignore_by-any ps path is_dir)

  -- A match keeps all but the rule.
  match_by-kept :
      (m : Matcher) (p : Pattern) (path : Str)
      → let p' = (match_by glob m p path).1 in
        (p'.matcher ≡ p.matcher) × (p'.negate ≡ p.negate) × (p'.must_dir ≡ p.must_dir)
  unfolding match_by
  match_by-kept rooted p path = (refl, refl, refl)
  match_by-kept structural p path = (refl, refl, refl)
  match_by-kept file_name p path = (refl, refl, refl)

  match_by-IsSteady :
      (m : Matcher) (p : Pattern) (path : Str) → IsSteady p → IsSteady ((match_by glob m p path).1)
  unfolding match_by
  match_by-IsSteady rooted p path h = ap trim_prefix h
  match_by-IsSteady structural p path h = h
  match_by-IsSteady file_name p path h = h

  match_by-again :
      (m : Matcher) (p : Pattern) (path q : Str)
      → IsSteady p
      → (match_by glob m ((match_by glob m p path).1) q).0 ≡ (match_by glob m p q).0
  unfolding match_by
  match_by-again rooted p path q h = ap (λ r. holds (glob r q)) h
  match_by-again structural p path q h = refl
  match_by-again file_name p path q h = refl

  ignored_by-again :
      (p : Pattern) (path q : Str) (e : Bool)
      → IsSteady p
      → ignored_by q e ((match_pattern glob p path).1) ≡ ignored_by q e p
  unfolding ignored_by applies match_pattern
  ignored_by-again p path q e h =
      let (m, n, d) = match_by-kept (p.matcher) p path in
      rw (m, n, d, match_by-again (p.matcher) p path q h) refl

  -- Two lists of patterns that ignore the same paths, now and later.
  abbrev Alike : List Pattern → List Pattern → Type 0
  Alike qs ps =
      All IsSteady qs × ((q : Str) (e : Bool) → any (ignored_by q e) qs ≡ any (ignored_by q e) ps)

  Alike-refl : (ps : List Pattern) → All IsSteady ps → Alike ps ps
  Alike-refl ps h = (h, λ q e. refl)

  Alike-matched :
      (p : Pattern) (path : Str) (qs ps : List Pattern)
      → IsSteady p
      → Alike qs ps
      → Alike ((match_pattern glob p path).1 ∷ qs) (p ∷ ps)
  unfolding match_pattern
  Alike-matched p path qs ps h k = (
    (match_by-IsSteady (p.matcher) p path h, k.0),
    λ q e. ground (arith, ignored_by-again p path q e h, k.1 q e),
  )

  Alike-unmatched :
      (p : Pattern) (qs ps : List Pattern) → IsSteady p → Alike qs ps → Alike (p ∷ qs) (p ∷ ps)
  Alike-unmatched p qs ps h k = ((h, k.0), λ q e. ap (λ b. ignored_by q e p || b) (k.1 q e))

  ignore_by-Alike :
      (ps : List Pattern) (path : Str) (is_dir : Bool)
      → All IsSteady ps
      → Alike ((ignore_by glob ps path is_dir).1) ps
  unfolding ignore_by
  ignore_by-Alike [] path is_dir h = (tt, λ q e. refl)
  ignore_by-Alike (p ∷ ps) path is_dir h =
      let k = ignore_by-Alike ps path is_dir h.1 in
      let same = Alike-refl ps h.1 in
      let skipped = Alike-unmatched p ((ignore_by glob ps path is_dir).1) ps h.0 k in
      let passed = Alike-matched p path ((ignore_by glob ps path is_dir).1) ps h.0 k in
      let ended = Alike-matched p path ps ps h.0 same in
      let skip = p.must_dir && not is_dir in
      let matches = (match_pattern glob p path).0 in
      let after = λ (qs : List Pattern). Alike qs (p ∷ ps) in
      either after (p.negate) _ _
        (either after skip _ _ (Alike-unmatched p ps ps h.0 same)
          (either after (not matches) _ _ ended passed))
        (either after skip _ _ skipped (either after matches _ _ ended passed))

  -- The first answer is that of the patterns, in any order.
  ignore-first :
      (r : Rules) (path : Str) (is_dir : Bool)
      → (ignore glob r path is_dir).0 ≡ (
          not (is_root path)
          && (path == r.ignore_file || any (ignored_by path is_dir) (r.patterns)))
  unfolding ignore
  ignore-first r path is_dir = ground (arith, ignore_by-any (r.patterns) path is_dir)

  ignore-kept :
      (r : Rules) (path : Str) (is_dir : Bool)
      → All IsSteady (r.patterns)
      → let r' = (ignore glob r path is_dir).1 in
        Alike (r'.patterns) (r.patterns) × (r'.ignore_file ≡ r.ignore_file)
  unfolding ignore
  ignore-kept r path is_dir h =
      let same = Alike-refl (r.patterns) h in
      elim (Bool-cases (is_root path)) [
        | inl e ↦ rw e (same, refl)
        | inr e ↦ elim (Bool-cases (path == r.ignore_file)) [
          | inl f ↦ rw (e, f) (same, refl)
          | inr f ↦ rw (e, f) (ignore_by-Alike (r.patterns) path is_dir h, refl)
        ]
      ]

  -- If no rule starts with two slashes, then after any other paths a path is ignored exactly if it
  -- is not the directory itself and is the ignore file, or some pattern without '!' applies to it,
  -- or some pattern with '!' does not: the order of the patterns is of no effect.
  pub ignore_each-ignored :
      (r : Rules) (seen : List (Str × Bool)) (path : Str) (is_dir : Bool)
      → All IsSteady (r.patterns)
      → (ignore glob (ignore_each r seen) path is_dir).0 ≡ (
          not (is_root path)
          && (path == r.ignore_file || any (ignored_by path is_dir) (r.patterns)))
  unfolding ignore_each
  ignore_each-ignored r [] path is_dir h = ignore-first r path is_dir
  ignore_each-ignored r ((before, e) ∷ seen) path is_dir h =
      let k = ignore-kept r before e h in
      ignore_each-ignored ((ignore glob r before e).1) seen path is_dir (k.0.0)
      ∙ rw (k.1, k.0.1 path is_dir) refl
