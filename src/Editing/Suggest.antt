-- ===== src/Editing/Suggest.antt =====
-- `suggest_cube_midpoint` of gruvax/api/admin/cubes.py: a record of the label between the first records
-- of a cube and of the next populated one.
use gruvax.Base.{
  Bool, true, false, Option, none, some, List, [], ◌∷◌, text_eq, if◌then◌else◌, get_elem?, ◌>>=◌,
}
use gruvax.Unicode.{Unicode}
use gruvax.Snapshot.{CollectionSnapshot, RecordRow, get_label_records}
use gruvax.Boundaries.{BoundaryRow, BoundaryCache}
use gruvax.Segments.Assign.{Position, position, shelf_order}
use gruvax.Segments.Bins.{SegmentBin, LabelSegment, sort_records}
use gruvax.Segments.Derive.{SegmentCache, get_bin}
use gruvax.BinMath.{suggest_midpoint}
use gruvax.Editing.{is_at}

-- The scan of `_find_next_populated_cube`: the flag is `found_current`.
unfoldable pub next_populated : Position → Bool → List BoundaryRow → Option Position
next_populated p found [] = none
next_populated p found (b ∷ boundaries) =
    let here = next_populated p true boundaries in
    let on = next_populated p found boundaries in
    if is_at p b then here else if found then (if b.is_empty then on else some (position b)) else on

unfoldable pub find_next_populated_cube : Position → BoundaryCache → Option Position
find_next_populated_cube p cache = next_populated p false (shelf_order cache.rows)

-- `get_bin`, and the first of its segments.
abbrev first_segment_of : Option SegmentBin → Option LabelSegment
first_segment_of none = none
first_segment_of (some b) = elim b.segments [ [] ↦ none | seg ∷ segments ↦ some seg ]

unfoldable pub first_segment : SegmentCache → Position → Option LabelSegment
first_segment cache (unit_id, (row, col)) = first_segment_of (get_bin cache unit_id row col)

module _ (u : Unicode) where
  -- The record at the rank where the segment starts, if there is one.
  unfoldable pub anchor : CollectionSnapshot → LabelSegment → Option RecordRow
  anchor snapshot seg =
      get_elem? (sort_records u (get_label_records u snapshot seg.label)) seg.first_rank_in_label

  unfoldable pub between_anchors :
      CollectionSnapshot → LabelSegment → RecordRow → LabelSegment → Option RecordRow
  between_anchors snapshot current_seg first_record next_seg = do
    last_record ← anchor snapshot next_seg
    suggest_midpoint u current_seg.label first_record.release_id last_record.release_id snapshot

  unfoldable pub suggest_cube_midpoint :
      Position → BoundaryCache → SegmentCache → CollectionSnapshot → Option RecordRow
  suggest_cube_midpoint p cache segments snapshot = do
    current_seg ← first_segment segments p
    first_record ← anchor snapshot current_seg
    next_cube ← find_next_populated_cube p cache
    next_seg ← first_segment segments next_cube
    if text_eq (u.casefold current_seg.label) (u.casefold next_seg.label)
        then between_anchors snapshot current_seg first_record next_seg
        else none
