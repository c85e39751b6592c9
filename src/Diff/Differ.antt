-- ===== src/Diff/Differ.antt =====
-- pkg/exec/diff/differ.go and diff_context.go: the objects that exist (`From`) are compared with
-- those that are wanted (`To`). A `runtime.Object` is nil, a nil pointer in an interface that is
-- not nil, or an object.
use kform.Shared.{
  Assoc, Bool, List, Option, Result, Storer, Str, [], err, false, if◌then◌else◌, none, ok, some,
  str, str_eq, true, ◌&&◌, ◌++◌, ◌==◌, ◌∷◌,
}
use kform.Data.BlockStore.{delete_block_store_entry, get_block_store_entry}
use kform.Diff.Masker.{Data, mask_data}
use kform.Package.Nodes.{BlockData, Nodes, get_copies}

pub data Printed {ℓ} (O : Type ℓ) : Type ℓ where
  nil_object : Printed O
  nil_pointer : Printed O
  an_object : O → Printed O

-- What the differ uses beside documents and stores: the name of the file of a document, its
-- conversion to an object, the version and the kind of an object, its field `data` and the
-- replacement of it, and the error of writing a file.
pub record DiffEnv {ℓ} (N O K R : Type ℓ) : Type ℓ where
  pub diff_nodes : Nodes N
  pub docs_store : Storer (BlockData N) K
  pub pkgs_store : Storer K R
  pub file_name_of : N → Result Str Str
  pub to_object : N → Result Str O
  pub version_of : O → Str
  pub kind_of : O → Str
  pub data_of : O → Result Str (Option Data)
  pub with_data : Data → O → Result Str O
  pub write_error : Str → O → Option Str

-- The files in the two directories, what is left of the existing objects, and the errors; a panic
-- ends the run.
pub record DiffState {ℓ} (O R : Type ℓ) : Type ℓ where
  pub from_store : R
  pub from_files : List (Str × O)
  pub to_files : List (Str × O)
  pub diff_errors : List Str
  pub diff_panicked : Bool

module _ {ℓ} {N O K R : Type ℓ} (d : DiffEnv N O K R) where
  -- `GetStoreItem`: the argument is converted, not the document of the store.
  unfoldable pub get_store_item : R → Str → Str → N → Printed O
  unfolding get_block_store_entry
  get_store_item r pkg_name block_name rn = elim (d.pkgs_store.get_entry pkg_name r) [
    | none ↦ nil_object
    | some k ↦ elim (get_block_store_entry ⦃st = d.docs_store⦄ ⦃y = d.diff_nodes⦄ k block_name rn) [
      | none ↦ nil_object
      | some _ ↦ elim (d.to_object rn) [ ok o ↦ an_object o | err _ ↦ nil_object ]
    ]
  ]

  -- `DeleteStoreItem`
  unfoldable pub delete_store_item : R → Str → Str → N → R
  unfolding delete_block_store_entry
  delete_store_item r pkg_name block_name rn = elim (d.pkgs_store.get_entry pkg_name r) [
    | none ↦ r
    | some k ↦
        d.pkgs_store.update_entry pkg_name
          (delete_block_store_entry ⦃st = d.docs_store⦄ ⦃y = d.diff_nodes⦄ k block_name rn) r
  ]

  -- `dataFromUnstructured`: nil if there is no object or no data.
  unfoldable pub data_from : Printed O → Result Str (Option Data)
  data_from (an_object o) = d.data_of o
  data_from _ = ok none

  abbrev pub or_no_data : Option Data → Data
  or_no_data none = []
  or_no_data (some m) = m

  -- The patch of an object; a nil object of the masker is a nil pointer.
  unfoldable pub patch : Option Data → Data → Printed O → Result Str (Printed O)
  patch (some _) m (an_object o) = elim (d.with_data m o) [
    | ok o' ↦ ok (an_object o')
    | err e ↦ err e
  ]
  patch none m (an_object o) = ok (an_object o)
  patch old m _ = ok nil_pointer

  -- `NewMasker`, `From` and `To`
  unfoldable pub mask : Printed O → Printed O → Result Str (Printed O × Printed O)
  unfolding data_from patch mask_data
  mask from to = elim (data_from from) [
    | err e ↦ err e
    | ok a ↦ elim (data_from to) [
      | err e ↦ err e
      | ok b ↦
          let m = mask_data (or_no_data a) (or_no_data b) in
          elim (patch a (m.0) from) [
            | err e ↦ err e
            | ok from' ↦ elim (patch b (m.1) to) [ err e ↦ err e | ok to' ↦ ok (from', to') ]
          ]
    ]
  ]

  unfoldable pub is_secret : O → Bool
  is_secret o = d.version_of o == str "v1" && d.kind_of o == str "Secret"

  -- The objects to print: masked if the first argument is a secret.
  unfoldable pub shown : O → Printed O → Printed O → Result Str (Printed O × Printed O)
  unfolding mask is_secret
  shown o from to = let masked = mask from to in if is_secret o then masked else ok (from, to)

  abbrev pub with_error : Str → DiffState O R → DiffState O R
  with_error m s = record s { diff_errors = s.diff_errors ++ m ∷ [] }

  -- The state after a file, unless it could not be written.
  abbrev pub if_written : Option Str → DiffState O R → Result Str (DiffState O R)
  if_written none s = ok s
  if_written (some m) s = err m

  -- `Print` to the two directories, first to that of `To`; a method of a nil pointer panics.
  unfoldable pub print_to : Str → Printed O → DiffState O R → Result Str (DiffState O R)
  print_to file nil_object s = ok s
  print_to file nil_pointer s = ok (record s { diff_panicked = true })
  print_to file (an_object o) s =
      if_written (d.write_error file o) (record s { to_files = s.to_files ++ (file, o) ∷ [] })

  unfoldable pub print_from : Str → Printed O → DiffState O R → Result Str (DiffState O R)
  print_from file nil_object s = ok s
  print_from file nil_pointer s = ok (record s { diff_panicked = true })
  print_from file (an_object o) s =
      if_written (d.write_error file o) (record s { from_files = s.from_files ++ (file, o) ∷ [] })

  -- What follows a print: nothing after an error, which is noted, or a panic.
  unfoldable pub after_print :
      DiffState O R → Result Str (DiffState O R) → (DiffState O R → DiffState O R) → DiffState O R
  after_print s (err m) then_do = with_error m s
  after_print s (ok s') then_do = let t = then_do s' in if s'.diff_panicked then s' else t

  -- Both prints.
  unfoldable pub print_both :
      Str → Printed O → Printed O → DiffState O R → (DiffState O R → DiffState O R) → DiffState O R
  unfolding print_to print_from after_print
  print_both file from to s then_do =
      after_print s (print_to file to s) (λ s'. after_print s' (print_from file from s') then_do)

  -- `if from != nil` the object is not to be pruned.
  unfoldable pub keep_object : Str → Str → N → Printed O → DiffState O R → DiffState O R
  unfolding delete_store_item
  keep_object pkg_name block_name rn nil_object s = s
  keep_object pkg_name block_name rn _ s = record s {
    from_store = delete_store_item (s.from_store) pkg_name block_name rn;
  }

  -- One document that is wanted.
  unfoldable pub visit_to : Str × Str × N → DiffState O R → DiffState O R
  unfolding get_store_item shown print_both keep_object
  visit_to (pkg_name, block_name, rn) s = elim (d.file_name_of rn) [
    | err m ↦ with_error m s
    | ok file ↦ elim (d.to_object rn) [
      | err m ↦ with_error m s
      | ok o ↦ elim (shown o (get_store_item (s.from_store) pkg_name block_name rn) (an_object o)) [
        | err m ↦ with_error m s
        | ok (from, to) ↦
            print_both file from to s (λ s'. keep_object pkg_name block_name rn from s')
      ]
    ]
  ]

  -- One document that is left over.
  unfoldable pub visit_from : Str × Str × N → DiffState O R → DiffState O R
  unfolding shown print_both
  visit_from (pkg_name, block_name, rn) s = elim (d.file_name_of rn) [
    | err m ↦ with_error m s
    | ok file ↦ elim (d.to_object rn) [
      | err m ↦ with_error m s
      | ok o ↦ elim (shown o (an_object o) nil_object) [
        | err m ↦ with_error m s
        | ok (from, to) ↦ print_both file from to s (λ s'. s')
      ]
    ]
  ]

  -- A panic ends the loop.
  unfoldable pub visit_all :
      (Str × Str × N → DiffState O R → DiffState O R)
      → List (Str × Str × N)
      → DiffState O R
      → DiffState O R
  visit_all visit [] s = s
  visit_all visit (i ∷ is) s =
      let rest = visit_all visit is (visit i s) in if s.diff_panicked then s else rest

  unfoldable pub block_items : Str → Str → BlockData N → List (Str × Str × N)
  block_items pkg_name block_name [] = []
  block_items pkg_name block_name (rn ∷ bd) =
      (pkg_name, block_name, rn) ∷ block_items pkg_name block_name bd

  unfoldable pub package_items : Str → Assoc Str (BlockData N) → List (Str × Str × N)
  unfolding block_items
  package_items pkg_name [] = []
  package_items pkg_name ((block_name, bd) ∷ bs) =
      block_items pkg_name block_name (get_copies ⦃y = d.diff_nodes⦄ bd)
      ++ package_items pkg_name bs

  -- The documents in the order of the nested `List`s.
  unfoldable pub all_items : Assoc Str K → List (Str × Str × N)
  unfolding package_items
  all_items [] = []
  all_items ((pkg_name, k) ∷ ps) =
      package_items pkg_name (d.docs_store.list_entries k) ++ all_items ps

  -- `Run`; the existing store is there, and the wanted one may be nil.
  unfoldable pub run_differ_on : Option R → R → DiffState O R
  unfolding visit_all visit_to visit_from all_items
  run_differ_on wanted existing =
      let s : DiffState O R = record {
        from_store = existing;
        from_files = [];
        to_files = [];
        diff_errors = [];
        diff_panicked = false;
      } in
      let s' : DiffState O R = elim wanted [
        | none ↦ s
        | some r ↦ visit_all visit_to (all_items (d.pkgs_store.list_entries r)) s
      ] in
      visit_all visit_from (all_items (d.pkgs_store.list_entries (s'.from_store))) s'
