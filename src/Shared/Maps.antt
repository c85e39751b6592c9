-- ===== src/Shared/Maps.antt =====
-- Go's `map[K]V` as an association list. Its order stands for one order in which `range` may
-- visit the keys; where the order matters, it is an argument.
use mathlib.Core.Path.{◌≡◌, refl}
use mathlib.Core.Bool.{Bool, true, false}
use mathlib.Core.List.{List, [], ◌∷◌}
use mathlib.Core.Option.{Option, none, some}
use native.Mathlib.Omega.{arith}
use kform.Shared.Tests.{if◌then◌else◌}
use kform.Shared.Equality.{Comparable, ◌==◌}
use kform.Shared.Lists.{contains}

abbrev pub Assoc {ℓ κ} : Type ℓ → Type κ → Type (ℓ ⊔ κ)
Assoc K V = List (K × V)

-- The keys that `range` visits.
unfoldable pub keys {ℓ κ} : {K : Type ℓ} {V : Type κ} → Assoc K V → List K
keys [] = []
keys ((k, _) ∷ m) = k ∷ keys m

module _ {ℓ κ} {K : Type ℓ} {V : Type κ} ⦃e : Comparable K⦄ where
  -- `v, ok := m[k]`
  unfoldable pub lookup : K → Assoc K V → Option V
  lookup key [] = none
  lookup key ((other, v) ∷ rest) = if other == key then some v else lookup key rest

  -- `m[k] = v`
  unfoldable pub insert : K → V → Assoc K V → Assoc K V
  insert key v [] = (key, v) ∷ []
  insert key v ((other, old) ∷ rest) =
      let later = insert key v rest in
      if other == key then (key, v) ∷ rest else (other, old) ∷ later

  -- `delete(m, k)`
  unfoldable pub erase : K → Assoc K V → Assoc K V
  erase k [] = []
  erase k ((j, w) ∷ m) = if j == k then erase k m else (j, w) ∷ erase k m

  -- `_, ok := m[k]`
  unfoldable pub has_key : K → Assoc K V → Bool
  unfolding lookup
  has_key k m = elim (lookup k m) [ none ↦ false | some _ ↦ true ]

  pub lookup-insert :
      (key asked : K) (new : V) (m : Assoc K V)
      → lookup asked (insert key new m) ≡ (if key == asked then some new else lookup asked m)
  unfolding lookup insert
  lookup-insert key asked new [] = refl
  lookup-insert key asked new ((other, old) ∷ rest) = ground (
    arith,
    lookup-insert key asked new rest,
    e.equal_iff other asked,
    e.equal_iff other key,
    e.equal_iff key asked,
  )

  pub lookup-erase :
      (k j : K) (m : Assoc K V) → lookup j (erase k m) ≡ (if k == j then none else lookup j m)
  unfolding lookup erase
  lookup-erase k j [] = ground (arith, e.equal_iff k j)
  lookup-erase k j ((i, w) ∷ m) =
      ground (arith, e.equal_iff k j, e.equal_iff i k, e.equal_iff i j, lookup-erase k j m)

  pub contains-keys : (k : K) (m : Assoc K V) → contains (keys m) k ≡ has_key k m
  unfolding contains keys has_key
  contains-keys k [] = refl
  contains-keys k ((j, w) ∷ m) = ground (arith, contains-keys k m)
