-- ===== src/Ignore/Reading.antt =====
-- pkg/pkgio/ignore/parser.go: what `parseRule` makes of the text of a rule.
use kform.Shared.{
  nat_eq, Bool-cases, Str, [], ap, arith, contains, contains_text, false, has_prefix, if◌then◌else◌,
  inl, inr, nat_beq_iff, refl, str, str_eq, sym, true, ℕ, ◌++◌, ◌∙◌, ◌∷◌, ◌≡◌, ◌≢◌,
}
use kform.Ignore.Rules.{
  Matcher, Pattern, bytes_after, drop_last, file_name, has_suffix, matcher_of, pattern_of, rooted,
  slash, structural, trim_suffix,
}

-- What the rule says of the paths that it is matched with, by its slashes.
abbrev pub MatcherFor : Str → Matcher → Type 0
MatcherFor rule rooted = (r : Str) × (rule ≡ slash ∷ r)
MatcherFor rule structural =
    (contains ⦃e = nat_eq⦄ rule slash ≡ true) × ((r : Str) → rule ≢ slash ∷ r)
MatcherFor rule file_name = contains ⦃e = nat_eq⦄ rule slash ≡ false

abbrev pub bang : ℕ
bang = 33

-- The text is a '!' if the pattern is a negated one, then the rule, and then a '/' if it is for
-- directories only; a text that starts with '!' is negated, and one that ends in '/' is for
-- directories.
pub record IsReading (p : Pattern) : Type 0 where
  pub positive : Str
  pub starts : p.raw ≡ (if p.negate then bang ∷ positive else positive)
  pub ends : positive ≡ (if p.must_dir then p.rule ++ slash ∷ [] else p.rule)
  pub not_negated : p.negate ≡ false → (s : Str) → p.raw ≢ bang ∷ s
  pub not_directory : p.must_dir ≡ false → (s : Str) → positive ≢ s ++ slash ∷ []
  pub matched_by : MatcherFor p.rule p.matcher

has_prefix-byte : (c : ℕ) (s : Str) → has_prefix s (c ∷ []) ≡ true → s ≡ c ∷ bytes_after 1 s
unfolding has_prefix bytes_after
has_prefix-byte c [] h = cc
has_prefix-byte c (d ∷ s) h = ap (λ x. x ∷ s) ((nat_beq_iff d c).0 (ground arith))

has_prefix-other : (c : ℕ) (s r : Str) → has_prefix s (c ∷ []) ≡ false → s ≢ c ∷ r
unfolding has_prefix
has_prefix-other c s r h e =
    let found : has_prefix s (c ∷ []) ≡ true =
      ap (λ x. has_prefix x (c ∷ [])) e ∙ ground (arith, (nat_beq_iff c c).1 refl) in
    cc

has_suffix-split : (s : Str) → has_suffix s ≡ true → s ≡ drop_last s ++ slash ∷ []
unfolding has_suffix drop_last
has_suffix-split [] h = cc
has_suffix-split (c ∷ []) h = ap (λ x. x ∷ []) ((nat_beq_iff c slash).0 h)
has_suffix-split (c ∷ d ∷ s) h = ap (λ x. c ∷ x) (has_suffix-split (d ∷ s) h)

has_suffix-append : (s : Str) → has_suffix (s ++ slash ∷ []) ≡ true
unfolding has_suffix
has_suffix-append [] = refl
has_suffix-append (c ∷ []) = refl
has_suffix-append (c ∷ d ∷ s) = has_suffix-append (d ∷ s)

contains_text-byte : (c : ℕ) (s : Str) → contains_text s (c ∷ []) ≡ contains ⦃e = nat_eq⦄ s c
unfolding contains_text contains has_prefix
contains_text-byte c [] = refl
contains_text-byte c (d ∷ s) = ground (arith, contains_text-byte c s)

matcher_of-for : (rule : Str) → MatcherFor rule (matcher_of rule)
unfolding matcher_of
matcher_of-for rule = elim (Bool-cases (has_prefix rule (str "/"))) [
  | inl e ↦ rw (e, matcher_of) (bytes_after 1 rule, has_prefix-byte slash rule e)
  | inr e ↦ elim (Bool-cases (contains_text rule (str "/"))) [
    | inl f ↦
        rw (e, matcher_of, f)
          (sym (contains_text-byte slash rule) ∙ f, λ r. has_prefix-other slash rule r e)
    | inr f ↦ rw (e, matcher_of, f) (sym (contains_text-byte slash rule) ∙ f)
  ]
]

-- `parseRule` takes the text of a rule apart as it is meant.
pub pattern_of-IsReading : (text : Str) → IsReading (pattern_of text)
unfolding pattern_of trim_suffix
pattern_of-IsReading text =
    let negated = has_prefix text (str "!") in
    let body = if negated then bytes_after 1 text else text in
    record {
      positive = body;
      starts = elim (Bool-cases negated) [
        | inl e ↦ rw e (has_prefix-byte bang text e)
        | inr e ↦ rw e refl
      ];
      ends = elim (Bool-cases (has_suffix body)) [
        | inl e ↦ rw e (has_suffix-split body e)
        | inr e ↦ rw e refl
      ];
      not_negated = λ e s. has_prefix-other bang text s e;
      not_directory =
          λ e s f. let found : has_suffix body ≡ true = ap has_suffix f ∙ has_suffix-append s in cc;
      matched_by = matcher_of-for (trim_suffix body);
    }
