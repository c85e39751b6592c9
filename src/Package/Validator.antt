-- ===== src/Package/Validator.antt =====
-- pkg/syntax/types/block_validator.go: what is checked of the annotations and of the resource type.
use kform.Shared.{
  All, All-mono, Assoc, Bool, Bool-cases, List, Option, Option-cases, Str, [], ap, arith, contains,
  false, has_key, has_prefix, if◌then◌else◌, inl, inr, keys, leb, leb_iff, lookup, nat_beq,
  nat_beq_iff, none, not, refl, some, str_eq, true, ℕ, ◌&&◌, ◌++◌, ◌||◌, ◌↔◌, ◌∙◌, ◌∷◌, ◌≡◌, ◌≤◌,
  ◌⊎◌,
}
use kform.Package.Blocks.{Ctx}
use kform.Package.Nodes.{Nodes, key_prefix}
use kform.Recorder.{
  Detail, Records, annotation_ignored, diag_errorf_with_context, diag_warnf_with_context, has_error,
  has_error-append, mandatory_annotation, record_diag, resource_type_syntax,
}

-- `expectedAnnotations`: is the annotation mandatory?
abbrev pub Expected : Type 0
Expected = Assoc Str Bool

-- The first loop: the annotations of a document.
unfoldable pub warn_ignored : Str → Expected → List Str → Records → Records
warn_ignored c expected [] rs = rs
warn_ignored c expected (k ∷ ks) rs = warn_ignored c expected ks (
    if has_prefix k key_prefix && not (contains (keys expected) k)
    then record_diag (diag_warnf_with_context c (annotation_ignored k)) rs
    else rs)

-- `expectedAnnotations[key]`: a missing entry reads as false.
unfoldable pub mandatory_at : Expected → Str → Bool
mandatory_at expected k = elim (lookup k expected) [ some mandatory ↦ mandatory | none ↦ false ]

-- `mandatory, ok := r.expectedAnnotations[annotionKey]; !ok` and then `if mandatory`.
unfoldable pub misses : Expected → Str → Bool
unfolding mandatory_at
misses expected k = not (has_key k expected) && mandatory_at expected k

unfoldable pub require_mandatory : Str → Expected → List Str → Records → Records
unfolding misses
require_mandatory c expected [] rs = rs
require_mandatory c expected (k ∷ ks) rs = require_mandatory c expected ks (
    if misses expected k
    then record_diag (diag_errorf_with_context c (mandatory_annotation k)) rs
    else rs)

unfoldable pub validate_annotations {ℓ} :
    {N : Type ℓ} ⦃y : Nodes N⦄ → Expected → Ctx N → Records → Records
unfolding warn_ignored require_mandatory
validate_annotations ⦃y⦄ expected c rs =
    require_mandatory c.context_text expected (keys expected)
      (warn_ignored c.context_text expected (keys (y.annotations c.node)) rs)

-- The character classes of the regular expression.
unfoldable pub is_letter : ℕ → Bool
is_letter c = (leb 97 c && leb c 122) || (leb 65 c && leb c 90)

unfoldable pub is_word : ℕ → Bool
unfolding is_letter
is_word c = is_letter c || ((leb 48 c && leb c 57) || (nat_beq c 95 || nat_beq c 45))

unfoldable pub all_words : Str → Bool
unfolding is_word
all_words [] = true
all_words (c ∷ s) = is_word c && all_words s

-- `^[a-zA-Z]+[a-zA-Z0-9_-]*$`: the letters are among the characters of the second class, so that
-- one letter is enough for the first part.
unfoldable pub validate_resource_syntax : Str → Option Detail
unfolding is_letter all_words
validate_resource_syntax [] = some (resource_type_syntax [])
validate_resource_syntax (c ∷ s) =
    if is_letter c && all_words s then none else some (resource_type_syntax (c ∷ s))

-- `[a-zA-Z]` and `[a-zA-Z0-9_-]`, by their codes.
abbrev pub IsLetter : ℕ → Type 0
IsLetter c = ((65 ≤ c) × (c ≤ 90)) ⊎ ((97 ≤ c) × (c ≤ 122))

abbrev pub IsWord : ℕ → Type 0
IsWord c = IsLetter c ⊎ (((48 ≤ c) × (c ≤ 57)) ⊎ ((c ≡ 95) ⊎ (c ≡ 45)))

-- A text that the regular expression matches: letters, at least one, and then characters of the
-- second class.
pub record Matches (name : Str) : Type 0 where
  pub letter : ℕ
  pub letters : Str
  pub words : Str
  pub first_is_letter : IsLetter letter
  pub are_letters : All IsLetter letters
  pub are_words : All IsWord words
  pub is_name : name ≡ letter ∷ letters ++ words

all_words-append : (a b : Str) → all_words (a ++ b) ≡ (all_words a && all_words b)
unfolding all_words
all_words-append [] b = refl
all_words-append (c ∷ a) b = ground (arith, all_words-append a b)

is_letter_iff : (c : ℕ) → (is_letter c ≡ true) ↔ IsLetter c
unfolding is_letter
is_letter_iff c =
    let (a, b) = leb_iff 97 c in
    let (d, e) = leb_iff c 122 in
    let (f, g) = leb_iff 65 c in
    let (h, k) = leb_iff c 90 in
    (
      λ l. elim (Bool-cases (leb 97 c && leb c 122)) [
        | inl m ↦ inr (a (ground arith), d (ground arith))
        | inr m ↦ inl (f (ground arith), h (ground arith))
      ],
      λ l. elim l [ inl (m, n) ↦ ground (arith, g m, k n) | inr (m, n) ↦ ground (arith, b m, e n) ],
    )

is_word_iff : (c : ℕ) → (is_word c ≡ true) ↔ IsWord c
unfolding is_word
is_word_iff c =
    let (to, from) = is_letter_iff c in
    (
      λ l. elim (Bool-cases (is_letter c)) [
        | inl m ↦ inl (to m)
        | inr m ↦ elim (Bool-cases (leb 48 c && leb c 57)) [
          | inl n ↦ inr (inl ((leb_iff 48 c).0 (ground arith), (leb_iff c 57).0 (ground arith)))
          | inr n ↦ elim (Bool-cases (nat_beq c 95)) [
            | inl o ↦ inr (inr (inl ((nat_beq_iff c 95).0 o)))
            | inr o ↦ inr (inr (inr ((nat_beq_iff c 45).0 (ground arith))))
          ]
        ]
      ],
      λ l. elim l [
        | inl m ↦ ground (arith, from m)
        | inr (inl (m, n)) ↦ ground (arith, (leb_iff 48 c).1 m, (leb_iff c 57).1 n)
        | inr (inr (inl m)) ↦ ground (arith, (nat_beq_iff c 95).1 m)
        | inr (inr (inr m)) ↦ ground (arith, (nat_beq_iff c 45).1 m)
      ],
    )

all_words-All : (s : Str) → all_words s ≡ true → All IsWord s
unfolding all_words
all_words-All [] h = tt
all_words-All (c ∷ s) h = ((is_word_iff c).0 (ground arith), all_words-All s (ground arith))

All-all_words : (s : Str) → All IsWord s → all_words s ≡ true
unfolding all_words
All-all_words [] h = refl
All-all_words (c ∷ s) h = ground (arith, (is_word_iff c).1 h.0, All-all_words s h.1)

letters_all_words : (s : Str) → All IsLetter s → all_words s ≡ true
letters_all_words s h = All-all_words s (All-mono IsLetter IsWord s (λ c l. inl l) h)

-- A resource type is accepted exactly if it is letters, at least one, and then letters, digits,
-- '_' and '-'.
pub validate_resource_syntax_lem :
    (name : Str) → (validate_resource_syntax name ≡ none) ↔ Matches name
unfolding validate_resource_syntax
validate_resource_syntax_lem [] =
    (λ e. cc, λ m. let e : [] ≡ m.letter ∷ m.letters ++ m.words = m.is_name in cc)
validate_resource_syntax_lem (c ∷ s) = (
  λ e. record {
    letter = c;
    letters = [];
    words = s;
    first_is_letter = (is_letter_iff c).0 (ground arith);
    are_letters = tt;
    are_words = all_words-All s (ground arith);
    is_name = refl;
  },
  λ m.
      let e : c ∷ s ≡ m.letter ∷ m.letters ++ m.words = m.is_name in
      let head_eq : c ≡ m.letter = cc in
      let tail_eq : s ≡ m.letters ++ m.words = cc in
      ground (
        arith,
        (is_letter_iff m.letter).1 m.first_is_letter,
        all_words-append m.letters m.words,
        letters_all_words m.letters m.are_letters,
        All-all_words m.words m.are_words,
        ap is_letter head_eq,
        ap all_words tail_eq,
      ),
)

warn_ignored-has_error :
    (c : Str) (expected : Expected) (ks : List Str) (rs : Records)
    → has_error (warn_ignored c expected ks rs) ≡ has_error rs
unfolding warn_ignored has_error
warn_ignored-has_error c expected [] rs = refl
warn_ignored-has_error c expected (k ∷ ks) rs = ground (
  arith,
  warn_ignored-has_error c expected ks rs,
  warn_ignored-has_error c expected ks
      (record_diag (diag_warnf_with_context c (annotation_ignored k)) rs),
  has_error-append rs (diag_warnf_with_context c (annotation_ignored k) ∷ []),
)

misses_none : (expected : Expected) (k : Str) → misses expected k ≡ false
unfolding misses has_key
misses_none expected k = elim (Option-cases (lookup k expected)) [
  | inl e ↦ ground arith
  | inr (b, e) ↦ ground arith
]

require_mandatory-has_error :
    (c : Str) (expected : Expected) (ks : List Str) (rs : Records)
    → has_error (require_mandatory c expected ks rs) ≡ has_error rs
unfolding require_mandatory
require_mandatory-has_error c expected [] rs = refl
require_mandatory-has_error c expected (k ∷ ks) rs =
    ground (arith, misses_none expected k, require_mandatory-has_error c expected ks rs)

-- The check of the annotations never records an error: there is one after it exactly if there was
-- one before, whatever annotations are expected and present.
pub validate_annotations-has_error {ℓ} :
    {N : Type ℓ} ⦃y : Nodes N⦄ (expected : Expected) (c : Ctx N) (rs : Records)
    → has_error (validate_annotations expected c rs) ≡ has_error rs
unfolding validate_annotations
validate_annotations-has_error ⦃y⦄ expected c rs =
    require_mandatory-has_error c.context_text expected (keys expected) _
    ∙ warn_ignored-has_error c.context_text expected (keys (y.annotations c.node)) rs
