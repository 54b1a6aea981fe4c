-- ===== src/Segments/Derive/Total.antt =====
-- `derive` returns for every shelf and collection, and what the bins of its result hold.
use gruvax.Base.{
  ℕ, suc, ◌≡◌, refl, Bool, true, false, some, List, [], ◌∷◌, arith, length, inl, inr, Bool-cases,
  keep, get_elem?, is_nil, ◌==◌,
}
use gruvax.Unicode.{Unicode}
use gruvax.Snapshot.{RecordRow, ByLabel, CollectionSnapshot}
use gruvax.Boundaries.{BoundaryRow, BoundaryCache, Overrides}
use gruvax.Segments.Assign.{shelf_order, bin_records, global_records}
use gruvax.Segments.Assign.Search.{assigned_bin_last, cut_bins-rows, cut_key-some}
use gruvax.Segments.Assign.Place.{bin_records-get, goes_to}
use gruvax.Segments.Assign.Conserve.{length-bin_records, get_elem?-lt}
use gruvax.Segments.Bins.{SegmentBin, bin_of}
use gruvax.Segments.Bins.Total.{IsFull, segment_total, OverridesArePositive, build_bin_total}
use gruvax.Segments.Derive.{SegmentCache, build_bins, derive}

module _ (u : Unicode) where
  -- The bin is that of the row, its segments have the rows of `records`, and they tile its width.
  abbrev pub IsBinOf : BoundaryRow → List RecordRow → SegmentBin → Type 0
  IsBinOf brow records b =
      (b ≡ bin_of u brow b.segments)
      × IsFull b.segments
      × (segment_total b.segments ≡ length records)

  -- Row by row.
  abbrev pub AreBinsOf : List BoundaryRow → List (List RecordRow) → List SegmentBin → Type 0
  AreBinsOf [] [] [] = Unit
  AreBinsOf (brow ∷ rows) (records ∷ lists) (b ∷ bins) =
      IsBinOf brow records b × AreBinsOf rows lists bins
  AreBinsOf _ _ _ = ⊥

  -- A row that is marked empty has no records.
  abbrev EmptyAreVacant : List BoundaryRow → List (List RecordRow) → Type 0
  EmptyAreVacant rows lists =
      (i : ℕ) (brow : BoundaryRow) (records : List RecordRow)
      → get_elem? rows i ≡ some brow
      → get_elem? lists i ≡ some records
      → brow.is_empty ≡ true
      → records ≡ []

  keep_nothing :
      (p : RecordRow → Bool) (l : List RecordRow) → ((r : RecordRow) → p r ≡ false) → keep p l ≡ []
  keep_nothing p [] h = refl
  keep_nothing p (r ∷ l) h = rw (h r) (keep_nothing p l h)

  -- No record goes to a row that is marked empty.
  pub goes_to-is_empty :
      (rows : List BoundaryRow) (i : ℕ) (brow : BoundaryRow) (r : RecordRow)
      → get_elem? rows i ≡ some brow
      → brow.is_empty ≡ true
      → goes_to u rows i r ≡ false
  goes_to-is_empty rows i brow r g e = elim (assigned_bin_last u rows r) [
    | inl (none_found, before) ↦ rw none_found refl
    | inr (j, found, (k, m, le, last)) ↦
        let (d, row, eq, g', c) = cut_bins-rows u 0 j k rows m in
        let (full, labelled, numbered) = cut_key-some u row k c in
        elim (Bool-cases (j == i)) [
          | inr other ↦ rw found other
          | inl same ↦ absurd (ground (arith, g, g', full, e))
        ]
  ]

  empty-vacant :
      (rows : List BoundaryRow) (by_label : ByLabel)
      → EmptyAreVacant rows (bin_records u rows by_label)
  empty-vacant rows by_label i brow records g g' e =
      let found = bin_records-get u rows by_label i (get_elem?-lt rows i g) in
      let nothing =
        keep_nothing (goes_to u rows i) (global_records u by_label)
          (λ r. goes_to-is_empty rows i brow r g e) in
      cc

  build_bins_total :
      (overrides : Overrides) (by_label : ByLabel) (rows : List BoundaryRow)
      (lists : List (List RecordRow))
      → OverridesArePositive overrides
      → length lists ≡ length rows
      → EmptyAreVacant rows lists
      → (bins : List SegmentBin) × (build_bins u overrides by_label rows lists ≡ some bins)
        × AreBinsOf rows lists bins
  unfolding build_bins
  build_bins_total overrides by_label [] [] p h v = ([], refl, tt)
  build_bins_total overrides by_label [] (l ∷ lists) p h v = absurd (omega arith)
  build_bins_total overrides by_label (r ∷ rows) [] p h v = absurd (omega arith)
  build_bins_total overrides by_label (r ∷ rows) (l ∷ lists) p h v =
      let (segments, e, full, count) = build_bin_total u overrides r by_label l p in
      let (bins, e', rest) =
        build_bins_total overrides by_label rows lists p (omega arith) (λ i. v (suc i)) in
      (
        bin_of u r segments ∷ bins,
        ground (arith, e, e'),
        ((refl, full, count (v 0 r l refl refl)), rest),
      )

  -- With positive overrides `derive` returns, whatever the boundaries and the collection are, and the
  -- bins of its result are those of the rows in shelf order: each has the row's coordinates and cut,
  -- as many rows in its segments as records were assigned to it, and
  -- segments, if any, whose widths sum to one, each starting where the widths before it end.
  pub derive_total :
      (boundaries : BoundaryCache) (snapshot : CollectionSnapshot) (overrides : Overrides)
      (cache : SegmentCache)
      → OverridesArePositive overrides
      → ((derive u boundaries snapshot overrides cache).1 ≡ true)
        × AreBinsOf
            (shelf_order boundaries.rows)
            (bin_records u (shelf_order boundaries.rows) snapshot.by_label)
            (derive u boundaries snapshot overrides cache).0.bins
  unfolding derive
  derive_total boundaries snapshot overrides cache p =
      let rows = shelf_order boundaries.rows in
      let lists = bin_records u rows snapshot.by_label in
      let (bins, e, all) =
        build_bins_total overrides snapshot.by_label rows lists p
          (length-bin_records u rows snapshot.by_label) (empty-vacant rows snapshot.by_label) in
      elim (Bool-cases (is_nil rows)) [
        | inr filled ↦ rw (filled, e) (refl, all)
        | inl void ↦
            rw void
              (refl, AreBinsOf_nil rows lists (length-bin_records u rows snapshot.by_label) void)
      ]
    where
      AreBinsOf_nil :
          (rows : List BoundaryRow) (lists : List (List RecordRow))
          → length lists ≡ length rows
          → is_nil rows ≡ true
          → AreBinsOf rows lists []
      AreBinsOf_nil [] [] h e = tt
      AreBinsOf_nil [] (l ∷ lists) h e = absurd (omega arith)
      AreBinsOf_nil (r ∷ rows) lists h e = absurd (cc)
