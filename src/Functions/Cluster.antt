-- ===== src/Functions/Cluster.antt =====
-- What run_resource.go relies on of a provider: a cluster that keeps one object under each key.
-- A call for an object changes no other one; a call that fails may have changed its own.
use kform.Shared.{
  Bool-cases, Comparable, Option, Result, Result-cases, Str, contains_text, err, false, inl, inr,
  ok, refl, some, str, true, ◌∙◌, ◌≡◌,
}
use kform.Functions.Resource.{
  act, create_object, delete_object, get_object, put_after_get, put_object, read_data,
  remove_object, reply_of, update_object,
}
use kform.Functions.World.{Client, FnConfig}
use kform.Package.BlockTypes.{BlockType, data_block, list_block, resource}

pub record Cluster {ℓ κ μ ν} {P : Type ℓ} {B : Type κ} {W : Type μ} (cl : Client P B W) (O : Type ν)
    : Type (ℓ ⊔ κ ⊔ μ ⊔ ν) where
  pub keys_compared : Comparable O
  pub key_of : P → Str → B → O
  pub object_at : W → O → Option B
  pub read-world :
      (p : P) (n : Str) (b : B) (w : W) (k : O)
      → object_at ((cl.read_data_source p n b w).0) k ≡ object_at w k
  pub list-world :
      (p : P) (n : Str) (b : B) (w : W) (k : O)
      → object_at ((cl.list_data_source p n b w).0) k ≡ object_at w k
  pub read-found :
      (p : P) (n : Str) (b old : B) (w : W)
      → reply_of ((cl.read_data_source p n b w).1) ≡ ok old
      → object_at w (key_of p n b) ≡ some old
  -- A dry run changes nothing; else the object that a create returns stands under its key.
  pub create-dry :
      (p : P) (n : Str) (b : B) (w : W) (k : O)
      → object_at ((cl.create_resource p n true b w).0) k ≡ object_at w k
  pub create-made :
      (p : P) (n : Str) (b b' : B) (w : W)
      → reply_of ((cl.create_resource p n false b w).1) ≡ ok b'
      → object_at ((cl.create_resource p n false b w).0) (key_of p n b) ≡ some b'
  pub create-elsewhere :
      (p : P) (n : Str) (b : B) (w : W) (k : O)
      → keys_compared.equal (key_of p n b) k ≡ false
      → object_at ((cl.create_resource p n false b w).0) k ≡ object_at w k
  -- An object that is there is replaced, if the old one is given as it is.
  pub update-dry :
      (p : P) (n : Str) (b old : B) (w : W) (k : O)
      → object_at ((cl.update_resource p n true b old w).0) k ≡ object_at w k
  pub update-made :
      (p : P) (n : Str) (b old b' : B) (w : W)
      → object_at w (key_of p n b) ≡ some old
      → reply_of ((cl.update_resource p n false b old w).1) ≡ ok b'
      → object_at ((cl.update_resource p n false b old w).0) (key_of p n b) ≡ some b'
  pub update-elsewhere :
      (p : P) (n : Str) (b old : B) (w : W) (k : O)
      → keys_compared.equal (key_of p n b) k ≡ false
      → object_at ((cl.update_resource p n false b old w).0) k ≡ object_at w k
  pub delete-dry :
      (p : P) (n : Str) (b : B) (w : W) (k : O)
      → object_at ((cl.delete_resource p n true b w).0) k ≡ object_at w k

module _ {ℓ κ μ ν} {P : Type ℓ} {B : Type κ} {W : Type μ} {O : Type ν} {cl : Client P B W}
    (u : Cluster cl O) where
  -- The same objects.
  abbrev pub SameWorld : W → W → Type (κ ⊔ ν)
  SameWorld w w' = (k : O) → u.object_at w' k ≡ u.object_at w k

  -- No object but the one of the key has changed.
  abbrev pub SameElsewhere : O → W → W → Type (κ ⊔ ν)
  SameElsewhere key w w' =
      (k : O) → u.keys_compared.equal key k ≡ false → u.object_at w' k ≡ u.object_at w k

  -- The object that is returned stands under its key, and no other one has changed.
  abbrev pub Applied : O → W → W × Result Str B → Type (κ ⊔ ν)
  Applied key w r = elim (r.1) [
    | ok b ↦ (u.object_at (r.0) key ≡ some b) × SameElsewhere key w (r.0)
    | err _ ↦ SameElsewhere key w (r.0)
  ]

  SameWorld-after : (w v v' : W) → SameWorld w v → SameWorld v v' → SameWorld w v'
  SameWorld-after w v v' h g k = g k ∙ h k

  module _ (cfg : FnConfig) (p : P) (n : Str) (b : B) (w : W) where
    put_after_get-dry :
        (r : Result Str B) (v : W)
        → cfg.dry_run ≡ true
        → SameWorld v ((put_after_get ⦃cl = cl⦄ cfg p n b v r).0)
    unfolding put_after_get create_object update_object
    put_after_get-dry (ok old) v d = rw d (λ k. u.update-dry p n b old v k)
    put_after_get-dry (err m) v d = elim (Bool-cases (contains_text m (str "not found"))) [
      | inl f ↦ rw (f, d) (λ k. u.create-dry p n b v k)
      | inr f ↦ rw f (λ k. refl)
    ]

    put_object-dry : cfg.dry_run ≡ true → SameWorld w ((put_object ⦃cl = cl⦄ cfg p n b w).0)
    unfolding put_object get_object
    put_object-dry d =
        let r = cl.read_data_source p n b w in
        λ k. put_after_get-dry (reply_of (r.1)) (r.0) d k ∙ u.read-world p n b w k

    read_data-world : SameWorld w ((read_data ⦃cl = cl⦄ cfg p n b w).0)
    unfolding read_data get_object
    read_data-world = elim (Result-cases (reply_of ((cl.read_data_source p n b w).1))) [
      | inl (b', e) ↦ rw (e, read_data) (λ k. u.read-world p n b w k)
      | inr (m, e) ↦ rw (e, read_data) (λ k. u.read-world p n b w k)
    ]

    -- In a dry run the switch on the block type changes nothing.
    pub act-SameWorld :
        (t : BlockType) → cfg.dry_run ≡ true → SameWorld w ((act ⦃cl = cl⦄ cfg t p n b w).0)
    unfolding act remove_object delete_object update_object create_object
    act-SameWorld t d = elim t as (λ x. SameWorld w ((act ⦃cl = cl⦄ cfg x p n b w).0)) [
      | data_block ↦ read_data-world
      | resource ↦ elim (Bool-cases (cfg.destroy)) [
        | inl f ↦ rw (f, d) (λ k. u.delete-dry p n b w k)
        | inr f ↦ rw f (put_object-dry d)
      ]
      | list_block ↦ λ k. u.list-world p n b w k
      | _ ↦ λ k. refl
    ]
