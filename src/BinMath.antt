-- ===== src/BinMath.antt =====
-- gruvax/estimator/boundary_math.py: counts, contents, samples and midpoints of bins.
pub mod Sample
pub mod Midpoint
use gruvax.Base.{
  ℕ, zero, suc, ◌+◌, ◌-◌, ◌*◌, ◌/◌, ◌==◌, ltb, leb, ◌&&◌, Option, none, some, List, [], ◌∷◌, ◌++◌,
  Text, if◌then◌else◌, length, get_elem?, take, drop, is_nil,
}
use gruvax.Unicode.{Unicode}
use gruvax.Snapshot.{RecordRow, CollectionSnapshot, get_label_records}
use gruvax.Segments.Bins.{LabelSegment, SegmentBin, sort_records}

-- `sum(seg.segment_count for seg in segments)`.
unfoldable pub sum_counts : List LabelSegment → ℕ
sum_counts [] = 0
sum_counts (seg ∷ segments) = seg.segment_count + sum_counts segments

unfoldable pub count_records_in_bin : SegmentBin → ℕ
unfolding sum_counts
count_records_in_bin b = sum_counts b.segments

-- `l[first : last + 1]`.
abbrev pub slice : ℕ → ℕ → List RecordRow → List RecordRow
slice first last l = take (last + 1 - first) (drop first l)

module _ (u : Unicode) where
  records_in_segments : CollectionSnapshot → List LabelSegment → List RecordRow
  records_in_segments snapshot [] = []
  records_in_segments snapshot (seg ∷ segments) =
      slice seg.first_rank_in_label seg.last_rank_in_label
        (sort_records u (get_label_records u snapshot seg.label))
      ++ records_in_segments snapshot segments

  unfoldable pub get_records_in_bin : SegmentBin → CollectionSnapshot → List RecordRow
  unfolding records_in_segments
  get_records_in_bin b snapshot = records_in_segments snapshot b.segments

  -- The loop over `enumerate(records)`, numbered from `i`: the last index with the id.
  unfoldable pub last_index : ℕ → ℕ → Option ℕ → List RecordRow → Option ℕ
  last_index release_id i found [] = found
  last_index release_id i found (r ∷ records) =
      last_index release_id (suc i) (if r.release_id == release_id then some i else found) records

  -- `records[(i_a + i_b) // 2]`, if it lies strictly between.
  unfoldable pub between : List RecordRow → Option ℕ → Option ℕ → Option RecordRow
  between records (some a) (some b) =
      let lo = if ltb b a then b else a in
      let hi = if ltb b a then a else b in
      let mid = (lo + hi) / 2 in if ltb lo mid && ltb mid hi then get_elem? records mid else none
  between records _ _ = none

  unfoldable pub suggest_midpoint : Text → ℕ → ℕ → CollectionSnapshot → Option RecordRow
  suggest_midpoint label first_anchor last_anchor snapshot =
      let records = sort_records u (get_label_records u snapshot label) in
      if is_nil records
      then none
      else between records (last_index first_anchor 0 none records)
          (last_index last_anchor 0 none records)

-- `records[int(i * step)]` for `i` in `range(n)`, from `i` on, with `todo` rounds left; `step` is
-- `len / n`, exact here: a rounded float of the source may give the next place. `none` is an index out of
-- range.
unfoldable pub stride : List RecordRow → ℕ → ℕ → ℕ → Option (List RecordRow)
stride records n i zero = some []
stride records n i (suc todo) =
    let rest = stride records n (suc i) todo in
    elim (get_elem? records (i * length records / n)) [
      | none ↦ none
      | some r ↦ elim rest [ none ↦ none | some l ↦ some (r ∷ l) ]
    ]

-- `none` is a Python exception: the division by zero at `n = 0`.
unfoldable pub sample_records : List RecordRow → ℕ → Option (List RecordRow)
sample_records records n =
    if is_nil records
    then some []
    else if leb (length records) n
    then some records
    else if n == 0
    then none
    else stride records n 0 n
