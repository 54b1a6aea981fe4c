-- ===== src/Segments/Bins.antt =====
-- Steps 4 to 6 of `SegmentCache.derive` (gruvax/estimator/segment_cache.py): the segments of one bin.
pub mod Groups
pub mod Total
use gruvax.Base.{
  ℕ, zero, suc, ◌+◌, ◌-◌, Bool, true, false, ◌&&◌, ◌||◌, ◌==◌, ltb, Option, none, some, List, [],
  ◌∷◌, ◌++◌, map, Text, text_eq, if◌then◌else◌, length, find_index, is_nil,
}
use gruvax.Base.Sort.{sort_by}
use gruvax.Base.Ratio.{Ratio, zero_r, ◌+ℚ◌}
use gruvax.Unicode.{Unicode}
use gruvax.Normalize.{parse_key}
use gruvax.Normalize.Key.{CatalogKey, catalog_order}
use gruvax.Snapshot.{RecordRow, ByLabel, records_of}
use gruvax.Boundaries.{BoundaryRow, Overrides}
use gruvax.Segments.Assign.{label_key, label_order}
use gruvax.Segments.Fractions.{Share, auto_fraction, checked_fractions}

pub record LabelSegment : Type 0 where
  pub label : Text
  pub label_display : Text
  pub first_rank_in_label : ℕ
  pub last_rank_in_label : ℕ
  pub segment_count : ℕ
  pub auto_fraction : Ratio
  pub applied_fraction : Ratio
  pub offset_in_bin : Ratio
  pub is_override : Bool
  pub continues : Bool

pub record SegmentBin : Type 0 where
  pub unit_id : ℕ
  pub row : ℕ
  pub col : ℕ
  pub cut_label : Option Text
  pub cut_catalog : Option Text
  pub segments : List LabelSegment

-- One key of `label_groups` and of `label_display`, which are filled in the same step.
pub record Group : Type 0 where
  pub label : Text
  pub label_display : Text
  pub records : List RecordRow

-- The ranks that step 4 computes for a label: first, last, and whether the label goes on.
pub record Ranks : Type 0 where
  pub first : ℕ
  pub last : ℕ
  pub continues : Bool

abbrev pub is_some : Option Ratio → Bool
is_some none = false
is_some (some q) = true

-- The first override of this bin for the label.
unfoldable pub find_override : (Text → Text) → BoundaryRow → Text → Overrides → Option Ratio
find_override casefold brow lk [] = none
find_override casefold brow lk (((ov_unit, ov_row, ov_col, ov_label), ov_frac) ∷ overrides) =
    let rest = find_override casefold brow lk overrides in
    if ov_unit == brow.unit_id
      && ov_row == brow.row
      && ov_col == brow.col
      && text_eq (casefold ov_label) lk
    then some ov_frac
    else rest

module _ (u : Unicode) where
  open u use {casefold}

  abbrev pub catalog_key : RecordRow → CatalogKey
  catalog_key r = parse_key u (some r.catalog_number)

  -- `label_sorted_records.get(lk, [])`, and the sort by catalog number wherever it is used.
  unfoldable pub sort_records : List RecordRow → List RecordRow
  sort_records = sort_by catalog_order catalog_key

  -- One round of the loop that fills `label_groups`.
  unfoldable pub add_to_groups : RecordRow → List Group → List Group
  add_to_groups r [] =
      record { label = casefold r.label; label_display = r.label; records = r ∷ [] } ∷ []
  add_to_groups r (g ∷ groups) =
      let rest = add_to_groups r groups in
      if text_eq g.label (casefold r.label)
      then (record g { records = g.records ++ r ∷ [] }) ∷ groups
      else g ∷ rest

  unfoldable pub group_records : List Group → List RecordRow → List Group
  group_records groups [] = groups
  group_records groups (r ∷ records) = group_records (add_to_groups r groups) records

  -- `ordered_labels`, each with its group.
  unfoldable pub ordered_groups : List RecordRow → List Group
  ordered_groups records =
      sort_by label_order (λ g. label_key u (some g.label)) (group_records [] records)

  -- The rank in `sorted_for_label` of the first record that is not before `first`.
  unfoldable pub rank_of : RecordRow → List RecordRow → ℕ
  rank_of first sorted_for_label =
      elim (find_index (λ r. catalog_order.le (catalog_key first) (catalog_key r))
        sorted_for_label) [ none ↦ 0 | some i ↦ i ]

  -- A group is never empty, so the second clause is not reached.
  unfoldable pub ranks_from : List RecordRow → ℕ → List RecordRow → Ranks
  ranks_from [] count in_bin_sorted = record { first = 0; last = count - 1; continues = false }
  ranks_from sorted_for_label count [] = record { first = 0; last = count - 1; continues = false }
  ranks_from sorted_for_label count (first ∷ in_bin_sorted) =
      let first_rank = rank_of first sorted_for_label in
      let last_rank = first_rank + count - 1 in
      record {
        first = first_rank;
        last = last_rank;
        continues = ltb last_rank (length sorted_for_label - 1);
      }

  unfoldable pub ranks : ByLabel → Group → Ranks
  ranks by_label g =
      ranks_from (sort_records (records_of g.label by_label)) (length g.records)
        (sort_records g.records)

  unfoldable pub share : Overrides → BoundaryRow → Group → Share
  share overrides brow g = (length g.records, find_override casefold brow g.label overrides)

  unfoldable pub make_segment :
      Overrides → BoundaryRow → ByLabel → ℕ → Ratio → Group → Ratio → LabelSegment
  make_segment overrides brow by_label bin_total offset g applied =
      let r = ranks by_label g in
      record {
        label = g.label;
        label_display = g.label_display;
        first_rank_in_label = r.first;
        last_rank_in_label = r.last;
        segment_count = length g.records;
        auto_fraction = auto_fraction bin_total (share overrides brow g);
        applied_fraction = applied;
        offset_in_bin = offset;
        is_override = is_some (share overrides brow g).1;
        continues = r.continues;
      }

  -- Step 6: the offset of a segment is the sum of the widths before it.
  unfoldable pub make_segments :
      Overrides → BoundaryRow → ByLabel → ℕ → Ratio → List Group → List Ratio → List LabelSegment
  make_segments overrides brow by_label bin_total offset (g ∷ groups) (applied ∷ fractions) =
      make_segment overrides brow by_label bin_total offset g applied
      ∷ make_segments overrides brow by_label bin_total (offset +ℚ applied) groups fractions
  make_segments overrides brow by_label bin_total offset _ _ = []

  abbrev pub bin_of : BoundaryRow → List LabelSegment → SegmentBin
  bin_of brow segments = record {
    unit_id = brow.unit_id;
    row = brow.row;
    col = brow.col;
    cut_label = brow.first_label;
    cut_catalog = brow.first_catalog;
    segments = segments;
  }

  -- One round of the loop over the bins; `none` is the `ValueError` of the check on the widths.
  unfoldable pub build_bin : Overrides → ByLabel → BoundaryRow → List RecordRow → Option SegmentBin
  build_bin overrides by_label brow records_in_bin =
      let groups = ordered_groups records_in_bin in
      let bin_total = length records_in_bin in
      if brow.is_empty || is_nil records_in_bin
      then some (bin_of brow [])
      else elim (checked_fractions bin_total (map (share overrides brow) groups)) [
        | none ↦ none
        | some fractions ↦
            some (
              bin_of brow (make_segments overrides brow by_label bin_total zero_r groups fractions))
      ]
