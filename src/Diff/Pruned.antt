-- ===== src/Diff/Pruned.antt =====
-- What the differ leaves of the existing objects, which are then destroyed.
use kform.Shared.{
  Result-cases, Bool, Bool-cases, List, Option, Option-cases, Result, Str, [], ap, arith, eq_iff,
  err, false, if◌then◌else◌, inl, inr, none, ok, ok-injective, refl, some, str_eq, sym, true, ℕ,
  ◌&&◌, ◌++◌, ◌+◌, ◌-◌, ◌==◌, ◌∙◌, ◌∷◌, ◌≡◌, ◌≢◌,
}
use kform.Data.BlockStore.{
  count-delete_node, count_object, count_object-same, delete_block_store_entry, delete_node,
  get_block_store_entry, get_item, get_item-count, same_object,
}
use kform.Diff.Differ.{
  DiffEnv, DiffState, Printed, after_print, all_items, an_object, data_from, delete_store_item,
  get_store_item, if_written, is_secret, keep_object, mask, nil_object, nil_pointer, or_no_data,
  patch, print_both, print_from, print_to, run_differ_on, shown, visit_all, visit_from, visit_to,
  with_error,
}
use kform.Diff.Masker.{Data, mask_data}
use kform.Package.Nodes.{BlockData}

append-one {ℓ} : {A : Type ℓ} (xs : List A) (x : A) → xs ++ x ∷ [] ≢ []
append-one [] x h = cc
append-one (y ∷ xs) x h = cc

minus_if : (b : Bool) (x : ℕ) → (if b then x - 1 else x) ≡ x - (if b then 1 else 0)
minus_if true x = refl
minus_if false x = omega arith

module _ {ℓ} {N O K R : Type ℓ} (d : DiffEnv N O K R) where
  abbrev docs_count : Option (BlockData N) → N → ℕ
  docs_count none m = 0
  docs_count (some bd) m = count_object ⦃y = d.diff_nodes⦄ bd m

  abbrev block_count : Option K → Str → N → ℕ
  block_count none b m = 0
  block_count (some k) b m = docs_count (d.docs_store.get_entry b k) m

  -- How many documents of a block of a package have the namespace and name of `m`?
  abbrev pub left_count : R → Str → Str → N → ℕ
  left_count r p b m = block_count (d.pkgs_store.get_entry p r) b m

  -- Is this the document?
  abbrev pub is_item : Str → Str → N → Str × Str × N → Bool
  is_item p b m (p', b', rn) = (p' == p) && (b' == b) && same_object ⦃y = d.diff_nodes⦄ rn m

  delete_one-count :
      (o : Option (BlockData N)) (rn m : N)
      → docs_count (some (elim o [ none ↦ [] | some bd ↦ delete_node ⦃y = d.diff_nodes⦄ bd rn ])) m
        ≡ (if same_object ⦃y = d.diff_nodes⦄ rn m then docs_count o m - 1 else docs_count o m)
  unfolding count_object
  delete_one-count none rn m = ground arith
  delete_one-count (some bd) rn m = count-delete_node ⦃y = d.diff_nodes⦄ bd rn m

  delete_docs-count :
      (k : K) (b b' : Str) (rn m : N)
      → docs_count
          (d.docs_store.get_entry b
            (delete_block_store_entry ⦃st = d.docs_store⦄ ⦃y = d.diff_nodes⦄ k b' rn))
          m
        ≡ (if (b' == b) && same_object ⦃y = d.diff_nodes⦄ rn m
            then docs_count (d.docs_store.get_entry b k) m - 1
            else docs_count (d.docs_store.get_entry b k) m)
  unfolding delete_block_store_entry
  delete_docs-count k b b' rn m =
      rw (d.docs_store.get-update_with b' b _ k) (elim (Bool-cases (b' == b)) [
        | inr e ↦ rw e refl
        | inl e ↦ rw e (
            delete_one-count (d.docs_store.get_entry b' k) rn m
            ∙ ap
                (λ x.
                  if same_object ⦃y = d.diff_nodes⦄ rn m
                  then docs_count (d.docs_store.get_entry x k) m - 1
                  else docs_count (d.docs_store.get_entry x k) m)
                ((eq_iff b' b).0 e))
      ])

  delete_package-count :
      (o : Option K) (r : R) (p p' b b' : Str) (rn m : N)
      → d.pkgs_store.get_entry p' r ≡ o
      → left_count
          (elim o [
            | none ↦ r
            | some k ↦
                d.pkgs_store.update_entry p'
                  (delete_block_store_entry ⦃st = d.docs_store⦄ ⦃y = d.diff_nodes⦄ k b' rn)
                  r
          ])
          p
          b
          m
        ≡ (if is_item p b m (p', b', rn) then left_count r p b m - 1 else left_count r p b m)
  delete_package-count none r p p' b b' rn m h = elim (Bool-cases (p' == p)) [
    | inr e ↦ rw e refl
    | inl e ↦
        let q = (eq_iff p' p).0 e in
        let gone : left_count r p b m ≡ 0 =
          ap (λ x. left_count r x b m) (sym q) ∙ ap (λ o. block_count o b m) h in
        ground (arith, gone)
  ]
  delete_package-count (some k) r p p' b b' rn m h =
      rw
        (d.pkgs_store.get-update p' p
          (delete_block_store_entry ⦃st = d.docs_store⦄ ⦃y = d.diff_nodes⦄ k b' rn) r)
        (elim (Bool-cases (p' == p)) [
          | inr e ↦ rw e refl
          | inl e ↦
              let q = (eq_iff p' p).0 e in
              let there : left_count r p b m ≡ docs_count (d.docs_store.get_entry b k) m =
                ap (λ x. left_count r x b m) (sym q) ∙ ap (λ o. block_count o b m) h in
              rw e (
                delete_docs-count k b b' rn m
                ∙ ap (λ n. if (b' == b) && same_object ⦃y = d.diff_nodes⦄ rn m then n - 1 else n)
                    (sym there))
        ])

  delete_store_item-count :
      (r : R) (p b : Str) (m : N) (i : Str × Str × N)
      → left_count (delete_store_item d r (i.0) (i.1) (i.2)) p b m
        ≡ (if is_item p b m i then left_count r p b m - 1 else left_count r p b m)
  unfolding delete_store_item
  delete_store_item-count r p b m (p', b', rn) =
      delete_package-count (d.pkgs_store.get_entry p' r) r p p' b b' rn m refl

  -- A document that is not found is not there.
  get_store_item-count :
      (r : R) (p b : Str) (m rn : N) (o : O)
      → get_store_item d r p b rn ≡ nil_object
      → d.to_object rn ≡ ok o
      → same_object ⦃y = d.diff_nodes⦄ rn m ≡ true
      → left_count r p b m ≡ 0
  unfolding get_store_item get_block_store_entry
  get_store_item-count r p b m rn o h f g = elim (Option-cases (d.pkgs_store.get_entry p r)) [
    | inl a ↦ rw a refl
    | inr (k, a) ↦ rw a (elim (Option-cases (d.docs_store.get_entry b k)) [
      | inl c ↦ rw c refl
      | inr (bd, c) ↦ rw c (elim (Option-cases (get_item ⦃y = d.diff_nodes⦄ bd rn)) [
        | inl z ↦
            sym (count_object-same ⦃y = d.diff_nodes⦄ bd rn m g)
            ∙ (get_item-count ⦃y = d.diff_nodes⦄ bd rn).0 z
        | inr (rn', z) ↦
            let found : get_store_item d r p b rn ≡ an_object o =
              rw (a, get_store_item, get_block_store_entry, c, z, f) refl in
            cc
      ])
    ])
  ]

  -- No error, and no panic.
  abbrev pub IsGood : DiffState O R → Type 0
  IsGood s = (s.diff_errors ≡ []) × (s.diff_panicked ≡ false)

  -- A step that ends well began well, and takes away so many documents, if they are there.
  abbrev Visited : (Str → Str → N → ℕ) → DiffState O R → DiffState O R → Type ℓ
  Visited c s s' =
      IsGood s'
      → IsGood s
        × ((p b : Str) (m : N)
            → left_count (s'.from_store) p b m ≡ left_count (s.from_store) p b m - c p b m)

  -- One document.
  abbrev pub hits : Str × Str × N → Str → Str → N → ℕ
  hits i p b m = if is_item p b m i then 1 else 0

  error-IsGood : (m : Str) (s : DiffState O R) → ¬ (IsGood (with_error d m s))
  error-IsGood m s h = append-one (s.diff_errors) m (h.0)

  -- What a print keeps.
  abbrev Prints : DiffState O R → DiffState O R → Type ℓ
  Prints s s' =
      (s'.from_store ≡ s.from_store)
      × (s'.diff_errors ≡ s.diff_errors)
      × (s'.diff_panicked ≡ false → s.diff_panicked ≡ false)

  -- What a print keeps, if it returns no error.
  abbrev PrintsOk : DiffState O R → Result Str (DiffState O R) → Type ℓ
  PrintsOk s (ok s') = Prints s s'
  PrintsOk s (err m) = Unit {ℓ}

  if_written-PrintsOk :
      (o : Option Str) (s t : DiffState O R) → Prints s t → PrintsOk s (if_written d o t)
  if_written-PrintsOk none s t h = h
  if_written-PrintsOk (some m) s t h = tt

  print_to-PrintsOk :
      (file : Str) (o : Printed O) (s : DiffState O R) → PrintsOk s (print_to d file o s)
  unfolding print_to
  print_to-PrintsOk file nil_object s = (refl, refl, λ z. z)
  print_to-PrintsOk file nil_pointer s = (refl, refl, λ z. cc)
  print_to-PrintsOk file (an_object o) s =
      if_written-PrintsOk (d.write_error file o) s _ (refl, refl, λ z. z)

  print_from-PrintsOk :
      (file : Str) (o : Printed O) (s : DiffState O R) → PrintsOk s (print_from d file o s)
  unfolding print_from
  print_from-PrintsOk file nil_object s = (refl, refl, λ z. z)
  print_from-PrintsOk file nil_pointer s = (refl, refl, λ z. cc)
  print_from-PrintsOk file (an_object o) s =
      if_written-PrintsOk (d.write_error file o) s _ (refl, refl, λ z. z)

  Prints-trans : (s t r : DiffState O R) → Prints s t → Prints t r → Prints s r
  Prints-trans s t r h g = (g.0 ∙ h.0, g.1 ∙ h.1, λ z. h.2 (g.2 z))

  Prints-Visited :
      (c : Str → Str → N → ℕ) (s t r : DiffState O R) → Prints s t → Visited c t r → Visited c s r
  Prints-Visited c s t r h v good =
      let (g, e) = v good in
      (
        (sym (h.1) ∙ g.0, h.2 (g.1)),
        λ p b m. e p b m ∙ ap (λ z. left_count z p b m - c p b m) (h.0),
      )

  unless_panicked-Visited :
      (c : Str → Str → N → ℕ) (b : Bool) (s t : DiffState O R)
      → s.diff_panicked ≡ b
      → Visited c s t
      → Visited c s (if b then s else t)
  unless_panicked-Visited c true s t h v good = let g = good.1 in cc
  unless_panicked-Visited c false s t h v good = v good

  after_print-Visited :
      (c : Str → Str → N → ℕ) (r : Result Str (DiffState O R)) (s : DiffState O R)
      (f : DiffState O R → DiffState O R)
      → PrintsOk s r
      → ((t : DiffState O R) → Prints s t → Visited c t (f t))
      → Visited c s (after_print d s r f)
  unfolding after_print
  after_print-Visited c (err m) s f h v = λ good. absurd (error-IsGood m s good)
  after_print-Visited c (ok t) s f h v =
      Prints-Visited c s t (if t.diff_panicked then t else f t) h
        (unless_panicked-Visited c (t.diff_panicked) t (f t) refl (v t h))

  -- Both prints, and what follows them.
  print_both-Visited :
      (c : Str → Str → N → ℕ) (file : Str) (from to : Printed O) (s : DiffState O R)
      (f : DiffState O R → DiffState O R)
      → ((t : DiffState O R) → Prints s t → Visited c t (f t))
      → Visited c s (print_both d file from to s f)
  unfolding print_both
  print_both-Visited c file from to s f h =
      after_print-Visited c (print_to d file to s) s _ (print_to-PrintsOk file to s) (λ t a.
        after_print-Visited c (print_from d file from t) t f (print_from-PrintsOk file from t)
          (λ r b. h r (Prints-trans s t r a b)))

  -- What the masker returns is not the nil interface.
  patch-nil : (old : Option Data) (m : Data) (o : Printed O) → patch d old m o ≢ ok nil_object
  unfolding patch
  patch-nil (some a) m (an_object o) h = elim (Result-cases (d.with_data m o)) [
    | inl (o', e) ↦
        let made : patch d (some a) m (an_object o) ≡ ok (an_object o') = rw (patch, e) refl in cc
    | inr (x, e) ↦ let made : patch d (some a) m (an_object o) ≡ err x = rw (patch, e) refl in cc
  ]
  patch-nil none m (an_object o) h = cc
  patch-nil (some a) m nil_object h = cc
  patch-nil (some a) m nil_pointer h = cc
  patch-nil none m nil_object h = cc
  patch-nil none m nil_pointer h = cc

  mask-nil :
      (from to : Printed O) (pair : Printed O × Printed O)
      → mask d from to ≡ ok pair
      → pair.0 ≢ nil_object
  unfolding mask
  mask-nil from to pair h g = elim (Result-cases (data_from d from)) [
    | inr (x, e) ↦ let made : mask d from to ≡ err x = rw (mask, e) refl in cc
    | inl (a, e) ↦ elim (Result-cases (data_from d to)) [
      | inr (x, e') ↦ let made : mask d from to ≡ err x = rw (mask, e, e') refl in cc
      | inl (b, e') ↦
          let m = mask_data (or_no_data d a) (or_no_data d b) in
          elim (Result-cases (patch d a (m.0) from)) [
            | inr (x, e'') ↦ let made : mask d from to ≡ err x = rw (mask, e, e', e'') refl in cc
            | inl (from', e'') ↦ elim (Result-cases (patch d b (m.1) to)) [
              | inr (x, f) ↦ let made : mask d from to ≡ err x = rw (mask, e, e', e'', f) refl in cc
              | inl (to', f) ↦
                  let made : mask d from to ≡ ok (from', to') = rw (mask, e, e', e'', f) refl in
                  let q = patch-nil a (m.0) from in
                  let same = ap (λ z. z.0) (ok-injective (sym made ∙ h)) in
                  q (e'' ∙ ap ok (same ∙ g))
            ]
          ]
    ]
  ]

  -- Only a nil object is shown as nil.
  shown-nil :
      (o : O) (from to : Printed O) (pair : Printed O × Printed O)
      → shown d o from to ≡ ok pair
      → pair.0 ≡ nil_object
      → from ≡ nil_object
  unfolding shown
  shown-nil o from to pair h g = elim (Bool-cases (is_secret d o)) [
    | inl e ↦
        let made : shown d o from to ≡ mask d from to = rw (shown, e) refl in
        absurd (mask-nil from to pair (sym made ∙ h) g)
    | inr e ↦
        let made : shown d o from to ≡ ok (from, to) = rw (shown, e) refl in
        ap (λ z. z.0) (ok-injective (sym made ∙ h)) ∙ g
  ]

  -- The document is taken away if it is kept.
  keep_object-Visited :
      (p b : Str) (rn : N) (from : Printed O) (s : DiffState O R) (o : O)
      → d.to_object rn ≡ ok o
      → (from ≡ nil_object → get_store_item d (s.from_store) p b rn ≡ nil_object)
      → Visited (hits (p, b, rn)) s (keep_object d p b rn from s)
  unfolding keep_object
  keep_object-Visited p b rn nil_object s o f h good = (
    good,
    λ p' b' m. elim (Bool-cases (is_item p' b' m (p, b, rn))) [
      | inr e ↦ rw e (omega arith)
      | inl e ↦
          let q : p ≡ p' = (eq_iff p p').0 (ground arith) in
          let q' : b ≡ b' = (eq_iff b b').0 (ground arith) in
          let gone = get_store_item-count (s.from_store) p b m rn o (h refl) f (ground arith) in
          let zero : left_count (s.from_store) p' b' m ≡ 0 =
            ap (λ x. left_count (s.from_store) x b' m) (sym q)
            ∙ ap (λ x. left_count (s.from_store) p x m) (sym q')
            ∙ gone in
          ground (arith, zero)
    ],
  )
  keep_object-Visited p b rn nil_pointer s o f h good = (
    good,
    λ p' b' m.
        delete_store_item-count (s.from_store) p' b' m (p, b, rn)
        ∙ minus_if (is_item p' b' m (p, b, rn)) (left_count (s.from_store) p' b' m),
  )
  keep_object-Visited p b rn (an_object _) s o f h good = (
    good,
    λ p' b' m.
        delete_store_item-count (s.from_store) p' b' m (p, b, rn)
        ∙ minus_if (is_item p' b' m (p, b, rn)) (left_count (s.from_store) p' b' m),
  )

  visit_to-Visited : (i : Str × Str × N) (s : DiffState O R) → Visited (hits i) s (visit_to d i s)
  unfolding visit_to
  visit_to-Visited (p, b, rn) s = elim (Result-cases (d.file_name_of rn)) [
    | inr (m, e) ↦ rw (e, visit_to) (λ good. absurd (error-IsGood m s good))
    | inl (file, e) ↦ elim (Result-cases (d.to_object rn)) [
      | inr (m, f) ↦ rw (e, visit_to, f) (λ good. absurd (error-IsGood m s good))
      | inl (o, f) ↦
          let item = get_store_item d (s.from_store) p b rn in
          elim (Result-cases (shown d o item (an_object o))) [
            | inr (m, g) ↦ rw (e, visit_to, f, g) (λ good. absurd (error-IsGood m s good))
            | inl ((from, to), g) ↦
                rw (e, visit_to, f, g)
                  (print_both-Visited (hits (p, b, rn)) file from to s
                    (λ t. keep_object d p b rn from t)
                    (λ t q. keep_object-Visited p b rn from t o f (λ z.
                      ap (λ r. get_store_item d r p b rn) (q.0)
                      ∙ shown-nil o item (an_object o) (from, to) g z)))
          ]
    ]
  ]

  visit_from-Visited :
      (i : Str × Str × N) (s : DiffState O R) → Visited (λ p b m. 0) s (visit_from d i s)
  unfolding visit_from
  visit_from-Visited (p, b, rn) s = elim (Result-cases (d.file_name_of rn)) [
    | inr (m, e) ↦ rw (e, visit_from) (λ good. absurd (error-IsGood m s good))
    | inl (file, e) ↦ elim (Result-cases (d.to_object rn)) [
      | inr (m, f) ↦ rw (e, visit_from, f) (λ good. absurd (error-IsGood m s good))
      | inl (o, f) ↦ elim (Result-cases (shown d o (an_object o) nil_object)) [
        | inr (m, g) ↦ rw (e, visit_from, f, g) (λ good. absurd (error-IsGood m s good))
        | inl ((from, to), g) ↦
            rw (e, visit_from, f, g)
              (print_both-Visited (λ p b m. 0) file from to s (λ t. t)
                (λ t q good. (good, λ p b m. omega arith)))
      ]
    ]
  ]

  -- How often is the document among the items?
  abbrev pub wanted_count : List (Str × Str × N) → Str → Str → N → ℕ
  wanted_count [] p b m = 0
  wanted_count (i ∷ is) p b m = hits i p b m + wanted_count is p b m

  visit_all-to :
      (is : List (Str × Str × N)) (s : DiffState O R)
      → Visited (wanted_count is) s (visit_all d (visit_to d) is s)
  unfolding visit_all
  visit_all-to [] s = λ good. (good, λ p b m. omega arith)
  visit_all-to (i ∷ is) s =
      unless_panicked-Visited (wanted_count (i ∷ is)) (s.diff_panicked) s
        (visit_all d (visit_to d) is (visit_to d i s)) refl
        (λ good.
          let (g, e) = visit_all-to is (visit_to d i s) good in
          let (g', e') = visit_to-Visited i s g in
          (g', λ p b m. let a = e p b m in let b' = e' p b m in omega arith))

  visit_all-from :
      (is : List (Str × Str × N)) (s : DiffState O R)
      → Visited (λ p b m. 0) s (visit_all d (visit_from d) is s)
  unfolding visit_all
  visit_all-from [] s = λ good. (good, λ p b m. omega arith)
  visit_all-from (i ∷ is) s =
      unless_panicked-Visited (λ p b m. 0) (s.diff_panicked) s
        (visit_all d (visit_from d) is (visit_from d i s)) refl
        (λ good.
          let (g, e) = visit_all-from is (visit_from d i s) good in
          let (g', e') = visit_from-Visited i s g in
          (g', λ p b m. let a = e p b m in let b' = e' p b m in omega arith))

  -- After a comparison without an error and a panic, what is left to be destroyed is what exists
  -- and is not wanted: of the documents with a namespace and a name in a block of a package as many
  -- as there were, less as many as are wanted there.
  pub run_differ_on-count :
      (wanted existing : R) (p b : Str) (m : N)
      → IsGood (run_differ_on d (some wanted) existing)
      → left_count ((run_differ_on d (some wanted) existing).from_store) p b m
        ≡ left_count existing p b m
          - wanted_count (all_items d (d.pkgs_store.list_entries wanted)) p b m
  unfolding run_differ_on
  run_differ_on-count wanted existing p b m good =
      let s : DiffState O R = record {
        from_store = existing;
        from_files = [];
        to_files = [];
        diff_errors = [];
        diff_panicked = false;
      } in
      let is = all_items d (d.pkgs_store.list_entries wanted) in
      let t = visit_all d (visit_to d) is s in
      let (g, e) = visit_all-from (all_items d (d.pkgs_store.list_entries (t.from_store))) t good in
      let (g', e') = visit_all-to is s g in let a = e p b m in let a' = e' p b m in omega arith
