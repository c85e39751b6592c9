-- ===== src/Shared/Stores.antt =====
-- What the code relies on of github.com/henderiw/store: a map with one entry for each key.
-- An implementation is a parameter of the code's models.

use mathlib.Core.Option.{Option, none, some}
use mathlib.Core.Path.{◌≡◌, refl}
use kform.Shared.Equality.{◌==◌}
use kform.Shared.Tests.{if◌then◌else◌}
use kform.Shared.Text.{Str, str_eq}
use kform.Shared.Maps.{Assoc, lookup, insert, lookup-insert}

pub record Storer {ℓ κ} (V : Type ℓ) (S : Type κ) : Type (ℓ ⊔ κ) where
  -- `Get`: an error if there is no such entry.
  pub get_entry : Str → S → Option V
  -- `Create`: an error, `none`, if there is an entry already.
  pub create_entry : Str → V → S → Option S
  -- `Update`
  pub update_entry : Str → V → S → S
  -- `UpdateWithKeyFn`: the function gets the zero value if there is no entry.
  pub update_with : Str → (Option V → V) → S → S
  -- `List`: the entries in the order that the callback sees them.
  pub list_entries : S → Assoc Str V
  pub create-taken :
      (k : Str) (v w : V) (s : S) → get_entry k s ≡ some w → create_entry k v s ≡ none
  pub create-free :
      (k : Str) (v : V) (s : S)
      → get_entry k s ≡ none
      → (s' : S) × (create_entry k v s ≡ some s')
        × ((j : Str) → get_entry j s' ≡ (if k == j then some v else get_entry j s))
  pub get-update :
      (k j : Str) (v : V) (s : S)
      → get_entry j (update_entry k v s) ≡ (if k == j then some v else get_entry j s)
  pub get-update_with :
      (k j : Str) (f : Option V → V) (s : S)
      → get_entry j (update_with k f s)
        ≡ (if k == j then some (f (get_entry k s)) else get_entry j s)
  pub lookup-list : (j : Str) (s : S) → lookup j (list_entries s) ≡ get_entry j s

-- An association list is such a store.

abbrev pub assoc_store {ℓ} : (V : Type ℓ) → Storer V (Assoc Str V)
assoc_store V = record {
  get_entry = lookup;
  create_entry = λ k v s. elim (lookup k s) [ none ↦ some (insert k v s) | some _ ↦ none ];
  update_entry = insert;
  update_with = λ k f s. insert k (f (lookup k s)) s;
  list_entries = λ s. s;
  create-taken = λ k v w s e. rw e refl;
  create-free = λ k v s e. (insert k v s, rw e refl, λ j. lookup-insert k j v s);
  get-update = λ k j v s. lookup-insert k j v s;
  get-update_with = λ k j f s. lookup-insert k j (f (lookup k s)) s;
  lookup-list = λ j s. refl;
}
