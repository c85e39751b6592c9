-- ===== src/Functions/Resource.antt =====
-- pkg/exec/fn/fns/run_resource.go: reads, creates, updates or deletes the objects of a block.
use kform.Shared.{
  Assoc, List, Result, Str, [], contains_text, erase, err, if◌then◌else◌, none, ok, some, str,
  str_eq, ◌∷◌,
}
use kform.Functions.World.{
  Client, FnConfig, FnError, Response, call_error, inventory_run, unexpected_block_type,
}
use kform.Package.BlockTypes.{BlockType, data_block, list_block, resource}
use kform.Package.Nodes.{
  key_alias, key_block_type, key_count, key_default, key_depends_on, key_description, key_for_each,
  key_hostname, key_index, key_lifecycle, key_organization, key_path, key_postcondition,
  key_precondition, key_provider, key_providers, key_provisioner, key_resource_id,
  key_resource_type, key_sensitive, key_source, key_version,
}

-- `KformAnnotations`
abbrev pub kform_annotations : List Str
kform_annotations =
    key_block_type ∷ key_resource_type ∷ key_resource_id ∷ key_count ∷ key_for_each ∷ key_depends_on
    ∷ key_default ∷ key_source ∷ key_version ∷ key_description ∷ key_sensitive ∷ key_lifecycle
    ∷ key_precondition ∷ key_postcondition ∷ key_providers ∷ key_provider ∷ key_provisioner
    ∷ key_organization ∷ key_alias ∷ key_hostname ∷ key_path ∷ key_index ∷ []

-- The loop of `delete(rnAnnotations, a)`.
unfoldable pub erase_all : List Str → Assoc Str Str → Assoc Str Str
unfolding erase
erase_all [] m = m
erase_all (k ∷ ks) m = erase_all ks (erase k m)

-- The common end of `get`, `create`, `update`.
unfoldable pub reply_of {ℓ} : {B : Type ℓ} → Result Str (Response B) → Result Str B
reply_of (err e) = err e
reply_of (ok r) = elim (r.reported) [ none ↦ ok (r.object) | some e ↦ err e ]

-- What the `switch` on the block type does: it goes on with an object, or it returns.
pub data Acted {ℓ} (B : Type ℓ) : Type ℓ where
  go_on : B → Acted B
  skip_rest : Acted B
  give_error : FnError → Acted B

abbrev pub acted_of {ℓ} : {B : Type ℓ} → Result Str B → Acted B
acted_of (ok b) = go_on b
acted_of (err e) = give_error (call_error e)

module _ {ℓ κ μ} {P : Type ℓ} {B : Type κ} {W : Type μ} ⦃cl : Client P B W⦄ where
  unfoldable pub get_object : P → Str → B → W → W × Result Str B
  unfolding reply_of
  get_object p name b w = let r = cl.read_data_source p name b w in (r.0, reply_of (r.1))

  unfoldable pub create_object : FnConfig → P → Str → B → W → W × Result Str B
  unfolding reply_of
  create_object cfg p name b w =
      let r = cl.create_resource p name (cfg.dry_run) b w in (r.0, reply_of (r.1))

  unfoldable pub update_object : FnConfig → P → Str → B → B → W → W × Result Str B
  unfolding reply_of
  update_object cfg p name b old w =
      let r = cl.update_resource p name (cfg.dry_run) b old w in (r.0, reply_of (r.1))

  unfoldable pub delete_object : FnConfig → P → Str → B → W → W × Result Str B
  unfolding reply_of
  delete_object cfg p name b w =
      let r = cl.delete_resource p name (cfg.dry_run) b w in (r.0, reply_of (r.1))

  -- What follows the read of a resource that is not destroyed: create it if it is not found.
  unfoldable pub put_after_get : FnConfig → P → Str → B → W → Result Str B → W × Result Str B
  put_after_get cfg p name b w (ok old) = update_object cfg p name b old w
  put_after_get cfg p name b w (err m) =
      let created = create_object cfg p name b w in
      if contains_text m (str "not found") then created else (w, err m)

  unfoldable pub put_object : FnConfig → P → Str → B → W → W × Result Str B
  unfolding get_object put_after_get
  put_object cfg p name b w =
      let r = get_object p name b w in put_after_get cfg p name b (r.0) (r.1)

  -- `destroy`: the object that goes on is the request.
  unfoldable pub remove_object : FnConfig → P → Str → B → W → W × Result Str B
  unfolding delete_object
  remove_object cfg p name b w =
      let r = delete_object cfg p name b w in (r.0, elim (r.1) [ ok _ ↦ ok b | err e ↦ err e ])

  unfoldable pub read_data : FnConfig → P → Str → B → W → W × Acted B
  unfolding get_object
  read_data cfg p name b w =
      let r = get_object p name b w in
      elim (r.1) [
        | ok b' ↦ (r.0, go_on b')
        | err e ↦
            (r.0, elim (cfg.run_kind) [ inventory_run ↦ skip_rest | _ ↦ give_error (call_error e) ])
      ]

  -- The `switch` on the block type.
  unfoldable pub act : FnConfig → BlockType → P → Str → B → W → W × Acted B
  unfolding read_data put_object remove_object reply_of
  act cfg data_block p name b w = read_data cfg p name b w
  act cfg resource p name b w =
      let r = if cfg.destroy then remove_object cfg p name b w else put_object cfg p name b w in
      (r.0, acted_of (r.1))
  act cfg list_block p name b w =
      let r = cl.list_data_source p name b w in (r.0, acted_of (reply_of (r.1)))
  act cfg t p name b w = (w, give_error (unexpected_block_type t))
