-- ===== src/Segments/Assign/Search.antt =====
-- The bin of a record is the one whose cut point precedes it most closely in key order.
use gruvax.Base.{
  ℕ, suc, ◌+◌, ◌≡◌, ◌≢◌, refl, sym, Bool, true, false, Option, none, some, List, [], ◌∷◌, In, arith,
  inl, inr, ◌⊎◌, Bool-cases, get_elem?, ap, Text,
}
use gruvax.Base.Order.{Order, le_refl}
use gruvax.Base.Sort.{
  sort_by, IsSorted, IsBelow, le-IsBelow, sort_by-IsSorted, In-sort_by, sort_by-In,
}
use gruvax.Unicode.{Unicode}
use gruvax.Snapshot.{RecordRow}
use gruvax.Boundaries.{BoundaryRow}
use gruvax.Segments.Assign.{
  CutKey, cut_order, last_cut, record_key, cut_key, cut_of, cut_bins, pair_with, cut_bins_by_key,
  assigned_bin,
}

module _ {K : Type 0} (o : Order K) where
  -- `i` is the number of a cut at or before `key`, and every cut at or before `key` is at or before
  -- that cut.
  abbrev pub IsLastCut : K → List (ℕ × K) → ℕ → Type 0
  IsLastCut key cuts i =
      (k : K) × In (i, k) cuts
      × (o.le k key ≡ true)
      × ((j : ℕ) (k' : K) → In (j, k') cuts → o.le k' key ≡ true → o.le k' k ≡ true)

  -- Every cut is after `key`.
  abbrev pub IsBeforeAll : K → List (ℕ × K) → Type 0
  IsBeforeAll key cuts = (j : ℕ) (k' : K) → In (j, k') cuts → o.le k' key ≡ false

  -- What the scan finds from where it stands.
  abbrev Scanned : K → Option ℕ → List (ℕ × K) → Type 0
  Scanned key found cuts =
      ((last_cut o key found cuts ≡ found) × IsBeforeAll key cuts)
      ⊎ ((i : ℕ) × (last_cut o key found cuts ≡ some i) × IsLastCut key cuts i)

  after_head :
      (key k : K) (i : ℕ) (cuts : List (ℕ × K))
      → o.le k key ≡ false
      → IsBelow o (λ c. c.1) k cuts
      → IsBeforeAll key ((i, k) ∷ cuts)
  after_head key k i cuts e below j k' (inl m) = rw (ap (λ (c : ℕ × K). c.1) m) e
  after_head key k i cuts e below j k' (inr m) =
      let up = le-IsBelow o (λ c. c.1) k (j, k') cuts below m in ground (arith, o.trans k k' key)

  only_head :
      (key k : K) (i : ℕ) (cuts : List (ℕ × K))
      → o.le k key ≡ true
      → IsBeforeAll key cuts
      → IsLastCut key ((i, k) ∷ cuts) i
  only_head key k i cuts e before = (k, inl refl, e, λ j k' m h. at_or_after j k' m h)
    where
      at_or_after :
          (j : ℕ) (k' : K) → In (j, k') ((i, k) ∷ cuts) → o.le k' key ≡ true → o.le k' k ≡ true
      at_or_after j k' (inl m) h = rw (ap (λ (c : ℕ × K). c.1) m) (le_refl o k)
      at_or_after j k' (inr m) h = absurd (cc (before j k' m))

  behind_head :
      (key k : K) (i i' : ℕ) (cuts : List (ℕ × K))
      → IsBelow o (λ c. c.1) k cuts
      → IsLastCut key cuts i'
      → IsLastCut key ((i, k) ∷ cuts) i'
  behind_head key k i i' cuts below (l, m, e, last) =
      (l, inr m, e, λ j k' n h. at_or_after j k' n h)
    where
      at_or_after :
          (j : ℕ) (k' : K) → In (j, k') ((i, k) ∷ cuts) → o.le k' key ≡ true → o.le k' l ≡ true
      at_or_after j k' (inl n) h =
          rw (ap (λ (c : ℕ × K). c.1) n) (le-IsBelow o (λ c. c.1) k (i', l) cuts below m)
      at_or_after j k' (inr n) h = last j k' n h

  scan_cuts :
      (key : K) (found : Option ℕ) (cuts : List (ℕ × K))
      → IsSorted o (λ c. c.1) cuts
      → Scanned key found cuts
  unfolding last_cut
  scan_cuts key found [] s = inl (refl, λ j k' m. absurd m)
  scan_cuts key found ((i, k) ∷ cuts) s = elim (Bool-cases (o.le k key)) [
    | inr e ↦ inl (rw e, after_head key k i cuts e s.0)
    | inl e ↦ elim (scan_cuts key (some i) cuts s.1) [
      | inl (r, before) ↦ inr (i, rw e r, only_head key k i cuts e before)
      | inr (i', r, last) ↦ inr (i', rw e r, behind_head key k i i' cuts s.0 last)
    ]
  ]

  -- The scan over the sorted cuts, from nothing found.
  pub last_cut-sort :
      (key : K) (cuts : List (ℕ × K))
      → ((last_cut o key none (sort_by o (λ c. c.1) cuts) ≡ none) × IsBeforeAll key cuts)
        ⊎ ((i : ℕ) × (last_cut o key none (sort_by o (λ c. c.1) cuts) ≡ some i)
            × IsLastCut key cuts i)
  last_cut-sort key cuts =
      let f : ℕ × K → K = λ c. c.1 in
      elim (scan_cuts key none (sort_by o f cuts) (sort_by-IsSorted o f cuts)) [
        | inl (r, before) ↦ inl (r, λ j k' m. before j k' (sort_by-In o f (j, k') cuts m))
        | inr (i, r, (k, m, e, last)) ↦ inr (
          i,
          r,
          (k, In-sort_by o f (i, k) cuts m, e, λ j k' n. last j k' (sort_by-In o f (j, k') cuts n)),
        )
      ]

module _ (u : Unicode) where
  -- A record of a shelf goes to the bin of the last cut point, in key order, that is at or before the
  -- record's key, whatever the walk order of the bins is; and to no bin exactly when every cut point
  -- is after the key.
  pub assigned_bin_last :
      (rows : List BoundaryRow) (r : RecordRow)
      → ((assigned_bin u rows r ≡ none)
          × IsBeforeAll cut_order (record_key u r) (cut_bins u 0 rows))
        ⊎ ((i : ℕ) × (assigned_bin u rows r ≡ some i)
            × IsLastCut cut_order (record_key u r) (cut_bins u 0 rows) i)
  unfolding assigned_bin cut_bins_by_key
  assigned_bin_last rows r = last_cut-sort cut_order (record_key u r) (cut_bins u 0 rows)

  cut_of-some :
      (e : Bool) (label catalog : Option Text) (k : CutKey)
      → cut_of u e label catalog ≡ some k
      → (e ≡ false) × (label ≢ none) × (catalog ≢ none)
  unfolding cut_of
  cut_of-some false (some l) (some c) k h = (refl, (λ p. cc), (λ p. cc))
  cut_of-some false none c k h = absurd (cc)
  cut_of-some false (some l) none k h = absurd (cc)
  cut_of-some true l c k h = absurd (cc)

  In-pair_with :
      (i n : ℕ) (k : CutKey) (c : Option CutKey) (cuts : List (ℕ × CutKey))
      → In (i, k) (pair_with u n c cuts)
      → ((i ≡ n) × (c ≡ some k)) ⊎ In (i, k) cuts
  unfolding pair_with
  In-pair_with i n k none cuts m = inr m
  In-pair_with i n k (some k') cuts (inl e) =
      inl (ap (λ (c : ℕ × CutKey). c.0) e, ap some (sym (ap (λ (c : ℕ × CutKey). c.1) e)))
  In-pair_with i n k (some k') cuts (inr m) = inr m

  -- The cuts are those of the rows at their numbers.
  pub cut_bins-rows :
      (n i : ℕ) (k : CutKey) (rows : List BoundaryRow)
      → In (i, k) (cut_bins u n rows)
      → (d : ℕ) × (row : BoundaryRow) × (i ≡ n + d)
        × (get_elem? rows d ≡ some row)
        × (cut_key u row ≡ some k)
  unfolding cut_bins
  cut_bins-rows n i k [] m = absurd m
  cut_bins-rows n i k (row ∷ rows) m =
      elim (In-pair_with i n k (cut_key u row) (cut_bins u (suc n) rows) m) [
        | inl (e, c) ↦ (0, row, omega arith, refl, c)
        | inr later ↦
            let (d, r, e, g, c) = cut_bins-rows (suc n) i k rows later in
            (suc d, r, omega arith, g, c)
      ]

  -- A row with a cut is not marked empty, and has both a label and a catalog number.
  pub cut_key-some :
      (row : BoundaryRow) (k : CutKey)
      → cut_key u row ≡ some k
      → (row.is_empty ≡ false) × (row.first_label ≢ none) × (row.first_catalog ≢ none)
  unfolding cut_key
  cut_key-some row k h = cut_of-some row.is_empty row.first_label row.first_catalog k h
