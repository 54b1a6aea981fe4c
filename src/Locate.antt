-- ===== src/Locate.antt =====
-- gruvax/estimator/algorithm.py: where a record is likely to stand on the shelf, with the result types
-- of gruvax/estimator/contract.py.
pub mod Band
pub mod Span
use gruvax.Base.{
  ℕ, zero, suc, ◌+◌, ◌-◌, ◌*◌, ◌/◌, Bool, true, false, ◌==◌, ltb, leb, ◌&&◌, Option, none, some,
  List, [], ◌∷◌, map, Text, if◌then◌else◌, length, get_elem?, find_index, is_nil,
}
use gruvax.Base.Sort.{sort_by}
use gruvax.Base.Ratio.{Ratio, ratio, zero_r, one, ◌+ℚ◌, ◌-ℚ◌, ◌*ℚ◌, ◌/ℚ◌, le, min_r}
use gruvax.Unicode.{Unicode}
use gruvax.Confidence.{
  compute_confidence, cube_only_confidence, no_boundary_confidence, position_half_width,
}
use gruvax.Snapshot.{RecordRow, CollectionSnapshot, get_label_records}
use gruvax.Segments.Assign.{Position, position_order}
use gruvax.Segments.Bins.{LabelSegment, SegmentBin, sort_records}
use gruvax.Segments.Derive.{SegmentCache, get_segment_for_rank, get_bins_for_label}

pub record CubeRef : Type 0 where
  pub unit_id : ℕ
  pub row : ℕ
  pub col : ℕ

pub record SubInterval : Type 0 where
  pub cube : CubeRef
  pub start : Ratio
  pub end : Ratio
  pub crosses_boundary : Bool
  pub next_cube : Option CubeRef

-- The values of `estimator_version`.
pub data Version : Type 0 where
  cube_only_v1 segment_v1 index_v1 : Version

pub record LocateResult : Type 0 where
  pub release_id : ℕ
  pub primary_cube : Option CubeRef
  pub label_span : List CubeRef
  pub sub_cube_interval : Option SubInterval
  pub confidence : Ratio
  pub estimator_version : Version

abbrev pub cube_of : SegmentBin → CubeRef
cube_of b = record { unit_id = b.unit_id; row = b.row; col = b.col }

abbrev pub cube_position : CubeRef → Position
cube_position c = (c.unit_id, (c.row, c.col))

abbrev pub same_cube : CubeRef → CubeRef → Bool
same_cube c d = c.unit_id == d.unit_id && c.row == d.row && c.col == d.col

-- The result where no boundary covers the record.
abbrev pub no_boundary : ℕ → LocateResult
no_boundary release_id = record {
  release_id = release_id;
  primary_cube = none;
  label_span = [];
  sub_cube_interval = none;
  confidence = no_boundary_confidence;
  estimator_version = cube_only_v1;
}

-- The cube-only result for the cubes in order.
unfoldable pub covered : ℕ → List CubeRef → LocateResult
covered release_id [] = no_boundary release_id
covered release_id (c ∷ covering) = record {
  release_id = release_id;
  primary_cube = some c;
  label_span = c ∷ covering;
  sub_cube_interval = none;
  confidence = cube_only_confidence;
  estimator_version = cube_only_v1;
}

-- `_record_band`: how far along its segment a record stands.
unfoldable pub rank_fraction : SegmentBin → LabelSegment → ℕ → Ratio
rank_fraction b seg rank =
    let rank_in_segment = rank - seg.first_rank_in_label in
    if ltb 1 (length b.segments)
    then (ratio rank_in_segment 1 +ℚ ratio 1 2) /ℚ ratio seg.segment_count 1
    else if leb seg.segment_count 1
    then ratio 1 2
    else ratio rank_in_segment 1 /ℚ ratio (seg.segment_count - 1) 1

unfoldable pub band_position : SegmentBin → LabelSegment → ℕ → Ratio
band_position b seg rank = seg.offset_in_bin +ℚ rank_fraction b seg rank *ℚ seg.applied_fraction

-- `max(0.0, p - h)` is the subtraction that stops at zero.
abbrev pub band_around : Ratio → Ratio × Ratio
band_around p = (p -ℚ position_half_width, min_r one (p +ℚ position_half_width))

unfoldable pub record_band : SegmentBin → LabelSegment → ℕ → ℕ → Ratio × Ratio
record_band b seg rank label_count =
    if label_count == 1 then (zero_r, one) else band_around (band_position b seg rank)

-- `label_span[i + 1]`, where there is one.
unfoldable pub next_in_span : Option ℕ → List CubeRef → Option CubeRef
next_in_span none span = none
next_in_span (some i) span = get_elem? span (suc i)

abbrev pub is_some_cube : Option CubeRef → Bool
is_some_cube none = false
is_some_cube (some c) = true

module _ (u : Unicode) where
  abbrev pub sorted_label : CollectionSnapshot → Text → List RecordRow
  sorted_label snapshot label = sort_records u (get_label_records u snapshot label)

  -- The row-rank of a release among the records of its label.
  abbrev pub rank_of_release : ℕ → List RecordRow → Option ℕ
  rank_of_release release_id = find_index (λ r. r.release_id == release_id)

  unfoldable pub span_of : SegmentCache → Text → List CubeRef
  span_of cache label =
      sort_by position_order cube_position (map cube_of (get_bins_for_label u cache label))

  unfoldable pub locate_cube_only : ℕ → Text → SegmentCache → CollectionSnapshot → LocateResult
  locate_cube_only release_id label cache snapshot =
      elim (rank_of_release release_id (sorted_label snapshot label)) [
        | none ↦ no_boundary release_id
        | some rank ↦ elim (get_segment_for_rank u cache label rank) [
          | none ↦ no_boundary release_id
          | some found ↦ covered release_id (span_of cache label)
        ]
      ]

  -- Steps 4 to 9, for the bin and segment of the rank.
  unfoldable pub segment_result :
      ℕ → SegmentBin → LabelSegment → ℕ → ℕ → List CubeRef → LocateResult
  segment_result release_id b seg rank k label_span =
      let primary_cube = cube_of b in
      let (start, end) = record_band b seg rank k in
      let next_cube =
        if seg.continues && le one end
        then next_in_span (find_index (λ c. same_cube c primary_cube) label_span) label_span
        else none in
      record {
        release_id = release_id;
        primary_cube = some primary_cube;
        label_span = label_span;
        sub_cube_interval = some (record {
          cube = primary_cube;
          start = start;
          end = end;
          crosses_boundary = is_some_cube next_cube;
          next_cube = next_cube;
        });
        confidence = compute_confidence k;
        estimator_version = segment_v1;
      }

  unfoldable pub locate_by_segment : ℕ → Text → SegmentCache → CollectionSnapshot → LocateResult
  locate_by_segment release_id label cache snapshot =
      let sorted_recs = sorted_label snapshot label in
      elim (rank_of_release release_id sorted_recs) [
        | none ↦ locate_cube_only release_id label cache snapshot
        | some rank ↦ elim (get_segment_for_rank u cache label rank) [
          | none ↦ locate_cube_only release_id label cache snapshot
          | some (b, seg) ↦
              segment_result release_id b seg rank (length sorted_recs) (span_of cache label)
        ]
      ]

  unfoldable pub locate : ℕ → Text → SegmentCache → CollectionSnapshot → LocateResult
  locate release_id label cache snapshot =
      if is_nil (get_label_records u snapshot label)
      then (let result = locate_cube_only release_id label cache snapshot in
          record result { estimator_version = cube_only_v1 })
      else locate_by_segment release_id label cache snapshot
