-- ===== src/Segments/Assign/Conserve.antt =====
-- The bins lose and repeat no record.
use mathlib.Core.List.{Perm, perm_middle, append_assoc, append-nil}
use mathlib.Core.List.Perm
use gruvax.Base.{
  ℕ, suc, zero, ◌<◌, ◌≡◌, refl, sym, subst, Bool, true, false, Option, none, some, List, [], ◌∷◌,
  ◌++◌, map, arith, get_elem?, keep, any, In, length, inl, inr, Option-cases, ap, ◌∙◌,
}
use gruvax.Base.Sort.{sort_by, keep-sort_by-Perm}
use gruvax.Unicode.{Unicode}
use gruvax.Snapshot.{RecordRow, ByLabel}
use gruvax.Boundaries.{BoundaryRow}
use gruvax.Segments.Assign.{
  append_at, append_assigned, assigned_bin, cut_bins, place_records, global_records, bin_records,
  all_records, cut_order, record_key,
}
use gruvax.Segments.Assign.Search.{assigned_bin_last, cut_bins-rows}
use gruvax.Segments.Assign.Place.{is_some}

-- The records of all bins, one bin after the other.
abbrev pub joined : List (List RecordRow) → List RecordRow
joined [] = []
joined (b ∷ bins) = b ++ joined bins

joined-append_at :
    (i : ℕ) (r : RecordRow) (bins : List (List RecordRow))
    → i < length bins
    → Perm (joined (append_at i r bins)) (r ∷ joined bins)
unfolding append_at
joined-append_at i r [] h = elim h [ ]
joined-append_at zero r (b ∷ bins) h =
    subst (λ l. Perm l (r ∷ (b ++ joined bins))) (sym (append_assoc b (r ∷ []) (joined bins)))
      (perm_middle b (joined bins))
joined-append_at (suc i) r (b ∷ bins) h =
    Perm.trans (Perm.append_left b (joined-append_at i r bins (omega arith)))
      (perm_middle b (joined bins))

length-append_at :
    (i : ℕ) (r : RecordRow) (bins : List (List RecordRow))
    → length (append_at i r bins) ≡ length bins
unfolding append_at
length-append_at i r [] = refl
length-append_at zero r (b ∷ bins) = refl
length-append_at (suc i) r (b ∷ bins) = ap suc (length-append_at i r bins)

length-append_assigned :
    (a : Option ℕ) (r : RecordRow) (bins : List (List RecordRow))
    → length (append_assigned a r bins) ≡ length bins
unfolding append_assigned
length-append_assigned none r bins = refl
length-append_assigned (some i) r bins = length-append_at i r bins

pub get_elem?-lt :
    {A : Type 0} (xs : List A) (i : ℕ) {a : A} → get_elem? xs i ≡ some a → i < length xs
get_elem?-lt [] i h = absurd (cc)
get_elem?-lt (x ∷ xs) zero h = omega arith
get_elem?-lt (x ∷ xs) (suc i) h = omega (arith, get_elem?-lt xs i h)

joined-nil : (rows : List BoundaryRow) → joined (map (λ _. []) rows) ≡ []
joined-nil [] = refl
joined-nil (r ∷ rows) = joined-nil rows

any-In : {A : Type 0} (p : A → Bool) (a : A) (xs : List A) → In a xs → p a ≡ true → any p xs ≡ true
any-In p a [] m h = absurd m
any-In p a (x ∷ xs) (inl e) h = rw (sym (ap p e) ∙ h) refl
any-In p a (x ∷ xs) (inr m) h = ground (arith, any-In p a xs m h)

none-any :
    {A : Type 0} (p : A → Bool) (xs : List A) → ((a : A) → In a xs → p a ≡ false) → any p xs ≡ false
none-any p [] h = refl
none-any p (x ∷ xs) h = rw (h x (inl refl)) (none-any p xs (λ a m. h a (inr m)))

keep_same :
    {A : Type 0} (p q : A → Bool) (xs : List A) → ((a : A) → p a ≡ q a) → keep p xs ≡ keep q xs
keep_same p q [] h = refl
keep_same p q (x ∷ xs) h = rw (h x, keep_same p q xs h) refl

length-nil :
    (rows : List BoundaryRow)
    → length (map (λ _. let l : List RecordRow = [] in l) rows) ≡ length rows
length-nil [] = refl
length-nil (r ∷ rows) = ap suc (length-nil rows)

module _ (u : Unicode) (rows : List BoundaryRow) where
  -- The record is assigned to some bin.
  abbrev is_assigned : RecordRow → Bool
  is_assigned r = is_some (assigned_bin u rows r)

  -- Some cut of the shelf is at or before the record.
  abbrev pub has_cut_before : RecordRow → Bool
  has_cut_before r = any (λ c. cut_order.le c.1 (record_key u r)) (cut_bins u 0 rows)

  is_assigned-has_cut_before : (r : RecordRow) → is_assigned r ≡ has_cut_before r
  is_assigned-has_cut_before r = elim (assigned_bin_last u rows r) [
    | inl (e, before) ↦ rw e (sym (none-any _ (cut_bins u 0 rows) (λ c m. before c.0 c.1 m)))
    | inr (i, e, (k, m, le, last)) ↦ rw e (sym (any-In _ (i, k) (cut_bins u 0 rows) m le))
  ]

  assigned_bin-lt : (r : RecordRow) (i : ℕ) → assigned_bin u rows r ≡ some i → i < length rows
  assigned_bin-lt r i h = elim (assigned_bin_last u rows r) [
    | inl (e, before) ↦ absurd (cc)
    | inr (j, e, (k, m, le, last)) ↦
        let (d, row, eq, g, c) = cut_bins-rows u 0 j k rows m in
        ground (arith, get_elem?-lt rows d g)
  ]

  joined-place_records :
      (records : List RecordRow) (bins : List (List RecordRow))
      → length bins ≡ length rows
      → Perm (joined (place_records u rows records bins)) (joined bins ++ keep is_assigned records)
  unfolding place_records
  joined-place_records [] bins h =
      subst (Perm (joined bins)) (sym (append-nil (joined bins))) Perm.rfl
  joined-place_records (r ∷ records) bins h = elim (Option-cases (assigned_bin u rows r)) [
    | inl e ↦ rw e (joined-place_records records bins h)
    | inr (i, e) ↦ rw e (
        Perm.trans
          (joined-place_records records (append_at i r bins) (length-append_at i r bins ∙ h))
          (Perm.trans
            (Perm.append_right (keep is_assigned records)
              (joined-append_at i r bins (omega (arith, assigned_bin-lt r i e))))
            (Perm.symm (perm_middle (joined bins) (keep is_assigned records)))))
  ]

  -- The bins, joined, are a permutation of those records of the collection that have a cut of the shelf
  -- at or before them in key order: none of these is lost and none repeated, and no other record gets in.
  pub joined-bin_records :
      (by_label : ByLabel)
      → Perm (joined (bin_records u rows by_label)) (keep has_cut_before (all_records by_label))
  unfolding bin_records global_records
  joined-bin_records by_label =
      let all = all_records by_label in
      let once = sort_by cut_order (record_key u) all in
      let twice = sort_by cut_order (record_key u) once in
      Perm.trans
        (subst (λ l. Perm (joined (bin_records u rows by_label)) (l ++ keep is_assigned twice))
          (joined-nil rows) (joined-place_records twice (map (λ _. []) rows) (length-nil rows)))
        (subst (Perm (keep is_assigned twice))
          (keep_same is_assigned has_cut_before all is_assigned-has_cut_before)
          (Perm.trans (keep-sort_by-Perm cut_order (record_key u) is_assigned once)
            (keep-sort_by-Perm cut_order (record_key u) is_assigned all)))

  length-place_records :
      (records : List RecordRow) (bins : List (List RecordRow))
      → length (place_records u rows records bins) ≡ length bins
  unfolding place_records
  length-place_records [] bins = refl
  length-place_records (r ∷ records) bins =
      length-place_records records (append_assigned (assigned_bin u rows r) r bins)
      ∙ length-append_assigned (assigned_bin u rows r) r bins

  -- One list of records for each row.
  pub length-bin_records : (by_label : ByLabel) → length (bin_records u rows by_label) ≡ length rows
  unfolding bin_records
  length-bin_records by_label =
      length-place_records (global_records u by_label) (map (λ _. []) rows) ∙ length-nil rows
