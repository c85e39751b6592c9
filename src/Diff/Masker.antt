-- ===== src/Diff/Masker.antt =====
-- pkg/exec/diff/masker.go: the values of a secret are replaced before they are printed. The values
-- of `data` are texts, as in every valid secret.
use kform.Shared.{
  Assoc, Bool, Bool-cases, List, Option, Option-cases, Str, [], arith, contains, contains-keys,
  eq_iff, has_key, if◌then◌else◌, inl, inr, insert, keys, list_beq, lookup, lookup-insert, none,
  not, refl, some, str, str_eq, ◌&&◌, ◌==◌, ◌∙◌, ◌∷◌, ◌≡◌,
}

abbrev pub mask_default : Str
mask_default = str "***"

abbrev pub mask_before : Str
mask_before = str "*** (before)"

abbrev pub mask_after : Str
mask_after = str "*** (after)"

abbrev pub Data : Type 0
Data = Assoc Str Str

-- The body of the first loop: `from[k]` is there.
unfoldable pub mask_key : Str → Data × Data → Data × Data
unfolding lookup insert
mask_key k m = elim (lookup k (m.0)) [
  | none ↦ m
  | some old ↦ elim (lookup k (m.1)) [
    | none ↦ (insert k mask_default (m.0), m.1)
    | some fresh ↦
        if old == fresh
        then (insert k mask_default (m.0), insert k mask_default (m.1))
        else (insert k mask_before (m.0), insert k mask_after (m.1))
  ]
]

unfoldable pub mask_keys : List Str → Data × Data → Data × Data
unfolding mask_key
mask_keys [] m = m
mask_keys (k ∷ ks) m = mask_keys ks (mask_key k m)

-- The second loop, over the keys of `to`.
unfoldable pub mask_rest : Data → List Str → Data → Data
unfolding has_key insert
mask_rest from [] to = to
mask_rest from (k ∷ ks) to =
    let masked = mask_rest from ks (insert k mask_default to) in
    let same = mask_rest from ks to in if has_key k from then same else masked

-- `run`, without the patch of the objects.
unfoldable pub mask_data : Data → Data → Data × Data
unfolding mask_keys mask_rest keys
mask_data from to =
    let m = mask_keys (keys from) (from, to) in (m.0, mask_rest (m.0) (keys (m.1)) (m.1))

-- What stands for an old and for a new value.
unfoldable pub masked_from : Option Str → Option Str → Option Str
masked_from none to = none
masked_from (some a) none = some mask_default
masked_from (some a) (some b) = some (if a == b then mask_default else mask_before)

unfoldable pub masked_to : Option Str → Option Str → Option Str
masked_to from none = none
masked_to none (some b) = some mask_default
masked_to (some a) (some b) = some (if a == b then mask_default else mask_after)

-- Of a key that only `to` has, the first loop leaves the value.
abbrev shared_to : Option Str → Option Str → Option Str
shared_to none to = to
shared_to (some a) to = masked_to (some a) to

mask_key-from :
    (k j : Str) (m : Data × Data)
    → lookup j ((mask_key k m).0)
      ≡ (if k == j then masked_from (lookup j (m.0)) (lookup j (m.1)) else lookup j (m.0))
unfolding mask_key masked_from
mask_key-from k j (from, to) = elim (Option-cases (lookup k from)) [
  | inl e ↦ rw (e, mask_key) (ground (arith, eq_iff k j))
  | inr (old, e) ↦ elim (Option-cases (lookup k to)) [
    | inl f ↦ rw (e, mask_key, f) (ground (arith, eq_iff k j, lookup-insert k j mask_default from))
    | inr (fresh, f) ↦
        rw (e, mask_key, f)
          (ground (
            arith,
            eq_iff k j,
            lookup-insert k j mask_default from,
            lookup-insert k j mask_before from,
          ))
  ]
]

mask_key-to :
    (k j : Str) (m : Data × Data)
    → lookup j ((mask_key k m).1)
      ≡ (if k == j then shared_to (lookup j (m.0)) (lookup j (m.1)) else lookup j (m.1))
unfolding mask_key masked_to
mask_key-to k j (from, to) = elim (Option-cases (lookup k from)) [
  | inl e ↦ rw (e, mask_key) (ground (arith, eq_iff k j))
  | inr (old, e) ↦ elim (Option-cases (lookup k to)) [
    | inl f ↦ rw (e, mask_key, f) (ground (arith, eq_iff k j))
    | inr (fresh, f) ↦
        rw (e, mask_key, f)
          (ground
            (arith, eq_iff k j, lookup-insert k j mask_default to, lookup-insert k j mask_after to))
  ]
]

-- Masked values are masked the same again.
masked_from-again :
    (a b : Option Str) → masked_from (masked_from a b) (shared_to a b) ≡ masked_from a b
unfolding masked_from masked_to list_beq
masked_from-again none b = refl
masked_from-again (some a) none = refl
masked_from-again (some a) (some b) = elim (Bool-cases (a == b)) [
  | inl e ↦ rw e refl
  | inr e ↦ rw e refl
]

shared_to-again : (a b : Option Str) → shared_to (masked_from a b) (shared_to a b) ≡ shared_to a b
unfolding masked_from masked_to list_beq
shared_to-again none b = refl
shared_to-again (some a) none = refl
shared_to-again (some a) (some b) = elim (Bool-cases (a == b)) [
  | inl e ↦ rw e refl
  | inr e ↦ rw e refl
]

-- The two values of a key after the first loop over some keys.
abbrev MaskedAt : Str → Bool → Data × Data → Data × Data → Type 0
MaskedAt j there m r =
    (lookup j (r.0)
      ≡ (if there then masked_from (lookup j (m.0)) (lookup j (m.1)) else lookup j (m.0)))
    × (lookup j (r.1)
        ≡ (if there then shared_to (lookup j (m.0)) (lookup j (m.1)) else lookup j (m.1)))

mask_keys-at :
    (ks : List Str) (j : Str) (m : Data × Data) → MaskedAt j (contains ks j) m (mask_keys ks m)
unfolding mask_keys contains
mask_keys-at [] j m = (refl, refl)
mask_keys-at (k ∷ ks) j m =
    let (f, g) = mask_keys-at ks j (mask_key k m) in
    let a = lookup j (m.0) in
    let b = lookup j (m.1) in
    (
      f
          ∙ ground (
            arith,
            mask_key-from k j m,
            mask_key-to k j m,
            masked_from-again a b,
            shared_to-again a b,
          ),
      g
          ∙ ground (
            arith,
            mask_key-from k j m,
            mask_key-to k j m,
            masked_from-again a b,
            shared_to-again a b,
          ),
    )

mask_rest-at :
    (from : Data) (ks : List Str) (j : Str) (to : Data)
    → lookup j (mask_rest from ks to)
      ≡ (if contains ks j && not (has_key j from) then some mask_default else lookup j to)
unfolding mask_rest contains
mask_rest-at from [] j to = refl
mask_rest-at from (k ∷ ks) j to = ground (
  arith,
  eq_iff k j,
  mask_rest-at from ks j to,
  mask_rest-at from ks j (insert k mask_default to),
  lookup-insert k j mask_default to,
)

-- After the masking every value of the two secrets is a mask: the same one if the values are equal
-- or one side has none, and otherwise two that tell the old one from the new one; no key comes or
-- goes.
pub mask_data_lem :
    (from to : Data) (j : Str)
    → (lookup j ((mask_data from to).0) ≡ masked_from (lookup j from) (lookup j to))
      × (lookup j ((mask_data from to).1) ≡ masked_to (lookup j from) (lookup j to))
unfolding mask_data masked_from masked_to has_key
mask_data_lem from to j =
    let m = mask_keys (keys from) (from, to) in
    let (f, g) = mask_keys-at (keys from) j (from, to) in
    let there = contains-keys j from in
    let there' = contains-keys j (m.1) in
    let r = mask_rest-at (m.0) (keys (m.1)) j (m.1) in
    elim (Option-cases (lookup j from)) [
      | inl a ↦ (ground arith, ground arith)
      | inr (old, a) ↦ elim (Option-cases (lookup j to)) [
        | inl b ↦ (ground arith, ground arith)
        | inr (fresh, b) ↦ (ground arith, ground arith)
      ]
    ]
