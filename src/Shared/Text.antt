-- ===== src/Shared/Text.antt =====
-- Go strings as lists of bytes, with the functions of `strings` that the code calls.
use Prim.Native.Char.{code}
use Prim.Native.Nat.{ℕ}
use Prim.Native.String.{String}
use mathlib.Core.Bool.{Bool, true, false, ◌&&◌, ◌||◌}
use mathlib.Core.Logic.{inl, inr}
use mathlib.Core.List.{List, [], ◌∷◌, ◌++◌}
use mathlib.Core.Path.{◌≡◌, refl}
use native.Mathlib.Omega.{arith}
use kform.Shared.Tests.{nat_beq, if◌then◌else◌, Bool-cases}
use kform.Shared.Equality.{Comparable, nat_eq, list_beq, list_beq_iff}

abbrev pub Str : Type 0
Str = List ℕ

-- A literal of the source; all of them are ASCII.
abbrev pub str : String → Str
str String.[] = []
str (String.◌∷◌ c s) = code c ∷ str s

instance abbrev pub str_eq : Comparable Str
str_eq = record { equal = list_beq; equal_iff = list_beq_iff }

-- `strings.HasPrefix(s, prefix)`
unfoldable pub has_prefix : Str → Str → Bool
has_prefix s [] = true
has_prefix [] (p ∷ ps) = false
has_prefix (c ∷ s) (p ∷ ps) = nat_beq c p && has_prefix s ps

-- `strings.Contains(s, sub)`
unfoldable pub contains_text : Str → Str → Bool
contains_text [] sub = has_prefix [] sub
contains_text (c ∷ s) sub = has_prefix (c ∷ s) sub || contains_text s sub

-- `strings.Split(s, sep)` for a separator of one byte: never empty.
unfoldable pub split : ℕ → Str → List Str
split sep [] = [] ∷ []
split sep (c ∷ s) =
    let rest = split sep s in
    if nat_beq c sep then [] ∷ rest else elim rest [ [] ↦ (c ∷ []) ∷ [] | p ∷ ps ↦ (c ∷ p) ∷ ps ]

-- `strings.Split(s, sep)[0]`, and as well `strings.SplitN(s, sep, 2)[0]`.
unfoldable pub first_part : ℕ → Str → Str
first_part sep [] = []
first_part sep (c ∷ s) = if nat_beq c sep then [] else c ∷ first_part sep s

pub has_prefix-append : (p s : Str) → has_prefix (p ++ s) p ≡ true
unfolding has_prefix
has_prefix-append [] s = refl
has_prefix-append (c ∷ p) s = ground (arith, has_prefix-append p s)

-- `strings.ReplaceAll(s, old, new)` for single bytes.
unfoldable pub replace_all : ℕ → ℕ → Str → Str
replace_all old new_byte [] = []
replace_all old new_byte (c ∷ s) =
    (if nat_beq c old then new_byte else c) ∷ replace_all old new_byte s

-- The first part is what `Split` puts first.
pub split-first_part : (sep : ℕ) (s : Str) → (ps : List Str) × (split sep s ≡ first_part sep s ∷ ps)
unfolding split first_part
split-first_part sep [] = ([], refl)
split-first_part sep (c ∷ s) = elim (Bool-cases (nat_beq c sep)) [
  | inl e ↦ (split sep s, rw e refl)
  | inr e ↦ let r = split-first_part sep s in (r.0, ground (arith, r.1))
]
