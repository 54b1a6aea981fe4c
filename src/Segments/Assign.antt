-- ===== src/Segments/Assign.antt =====
-- Steps 1 to 3 of `SegmentCache.derive` (gruvax/estimator/segment_cache.py): the bins in shelf order,
-- their cut points, and the bin of each record.
pub mod Search
pub mod Place
pub mod Conserve
use gruvax.Base.{
  ℕ, suc, zero, Bool, true, false, Option, none, some, List, [], ◌∷◌, ◌++◌, map, Text,
  if◌then◌else◌, length,
}
use gruvax.Base.Order.{Order, nat_order, pair_order, list_order}
use gruvax.Base.Sort.{sort_by}
use gruvax.Unicode.{Unicode}
use gruvax.Normalize.{label_sort_key, parse_key}
use gruvax.Normalize.Key.{CatalogKey, catalog_order}
use gruvax.Snapshot.{RecordRow, ByLabel}
use gruvax.Boundaries.{BoundaryRow}

abbrev pub LabelKey : Type 0
LabelKey = List ℕ × Text

abbrev pub CutKey : Type 0
CutKey = LabelKey × CatalogKey

abbrev pub label_order : Order LabelKey
label_order = pair_order (list_order nat_order) (list_order nat_order)

abbrev pub cut_order : Order CutKey
cut_order = pair_order label_order catalog_order

-- The key of the first sort: (unit_id, row, col).
abbrev pub Position : Type 0
Position = ℕ × (ℕ × ℕ)

abbrev pub position_order : Order Position
position_order = pair_order nat_order (pair_order nat_order nat_order)

abbrev pub position : BoundaryRow → Position
position r = (r.unit_id, (r.row, r.col))

unfoldable pub shelf_order : List BoundaryRow → List BoundaryRow
shelf_order = sort_by position_order position

-- `all_records.extend(records)` for each group.
unfoldable pub all_records : ByLabel → List RecordRow
all_records [] = []
all_records ((key, records) ∷ d) = records ++ all_records d

-- The scan over the cuts in key order, which stops at the first cut after the record.
module _ {K : Type 0} (o : Order K) where
  unfoldable pub last_cut : K → Option ℕ → List (ℕ × K) → Option ℕ
  last_cut rec_key assigned [] = assigned
  last_cut rec_key assigned ((index, key) ∷ cuts) =
      let rest = last_cut rec_key (some index) cuts in if o.le key rec_key then rest else assigned

-- `bin_records[i].append(record)`.
unfoldable pub append_at : ℕ → RecordRow → List (List RecordRow) → List (List RecordRow)
append_at i r [] = []
append_at zero r (bin ∷ bins) = (bin ++ r ∷ []) ∷ bins
append_at (suc i) r (bin ∷ bins) = bin ∷ append_at i r bins

unfoldable pub append_assigned :
    Option ℕ → RecordRow → List (List RecordRow) → List (List RecordRow)
append_assigned none r bins = bins
append_assigned (some i) r bins = append_at i r bins

module _ (u : Unicode) where
  -- `_label_key`.
  abbrev pub label_key : Option Text → LabelKey
  label_key = label_sort_key u

  abbrev pub record_key : RecordRow → CutKey
  record_key r = (label_key (some r.label), parse_key u (some r.catalog_number))

  cut_of : Bool → Option Text → Option Text → Option CutKey
  cut_of false (some label) (some catalog) =
      some (label_key (some label), parse_key u (some catalog))
  cut_of _ _ _ = none

  -- `_cut_key`.
  unfoldable pub cut_key : BoundaryRow → Option CutKey
  unfolding cut_of
  cut_key row = cut_of row.is_empty row.first_label row.first_catalog

  pair_with : ℕ → Option CutKey → List (ℕ × CutKey) → List (ℕ × CutKey)
  pair_with i none rest = rest
  pair_with i (some key) rest = (i, key) ∷ rest

  -- `cut_bins`, numbered from `i`.
  unfoldable pub cut_bins : ℕ → List BoundaryRow → List (ℕ × CutKey)
  unfolding pair_with
  cut_bins i [] = []
  cut_bins i (row ∷ rows) = pair_with i (cut_key row) (cut_bins (suc i) rows)

  unfoldable pub cut_bins_by_key : List BoundaryRow → List (ℕ × CutKey)
  cut_bins_by_key rows = sort_by cut_order (λ c. c.1) (cut_bins 0 rows)

  unfoldable pub assigned_bin : List BoundaryRow → RecordRow → Option ℕ
  assigned_bin rows r = last_cut cut_order (record_key r) none (cut_bins_by_key rows)

  unfoldable pub place_records :
      List BoundaryRow → List RecordRow → List (List RecordRow) → List (List RecordRow)
  unfolding append_assigned append_at
  place_records rows [] bins = bins
  place_records rows (r ∷ records) bins =
      place_records rows records (append_assigned (assigned_bin rows r) r bins)

  -- The two global sorts: of the records, and of the records paired with their keys.
  unfoldable pub global_records : ByLabel → List RecordRow
  global_records by_label =
      sort_by cut_order record_key (sort_by cut_order record_key (all_records by_label))

  -- `bin_records`, for rows in shelf order.
  unfoldable pub bin_records : List BoundaryRow → ByLabel → List (List RecordRow)
  bin_records rows by_label = place_records rows (global_records by_label) (map (λ _. []) rows)
