-- ===== src/Segments/Derive.antt =====
-- `SegmentCache` of gruvax/estimator/segment_cache.py: `derive` as a whole, and the lookups.
pub mod Total
pub mod Lookup
use gruvax.Base.{
  ℕ, Bool, true, false, ◌&&◌, ◌==◌, leb, Option, none, some, List, [], ◌∷◌, Text, text_eq,
  if◌then◌else◌, any, keep, is_nil, ◌≡◌, refl, arith,
}
use gruvax.Base.Dict.{KeyTest, get, put}
use gruvax.Unicode.{Unicode}
use gruvax.Snapshot.{ByLabel, CollectionSnapshot, RecordRow}
use gruvax.Boundaries.{BoundaryRow, BoundaryCache, Overrides}
use gruvax.Segments.Assign.{shelf_order, bin_records}
use gruvax.Segments.Bins.{LabelSegment, SegmentBin, build_bin}

-- (unit_id, row, col).
abbrev pub Coord : Type 0
Coord = ℕ × ℕ × ℕ

abbrev coord_eq : Coord → Coord → Bool
coord_eq (u, r, c) (u', r', c') = u == u' && r == r' && c == c'

pub coord_eq_refl : (k : Coord) → coord_eq k k ≡ true
coord_eq_refl (u, r, c) = ground arith

pub coord_eq_sound : (j k : Coord) → coord_eq j k ≡ true → j ≡ k
coord_eq_sound (u, r, c) (u', r', c') h = ground arith

abbrev pub coord_key : KeyTest Coord
coord_key = record { same = coord_eq; same_refl = coord_eq_refl; same_sound = coord_eq_sound }

abbrev pub coord : SegmentBin → Coord
coord b = (b.unit_id, b.row, b.col)

pub record SegmentCache : Type 0 where
  pub bins : List SegmentBin
  pub by_coord : List (Coord × SegmentBin)

-- `SegmentCache()`.
abbrev pub empty : SegmentCache
empty = record { bins = []; by_coord = [] }

-- `{(b.unit_id, b.row, b.col): b for b in bins}`.
unfoldable pub index_bins : List (Coord × SegmentBin) → List SegmentBin → List (Coord × SegmentBin)
index_bins d [] = d
index_bins d (b ∷ bins) = index_bins (put coord_key (coord b) b d) bins

module _ (u : Unicode) where
  -- `result_bins`, over `zip(boundary_rows, bin_records, strict=True)`; `none` is a `ValueError`.
  unfoldable pub build_bins :
      Overrides → ByLabel → List BoundaryRow → List (List RecordRow) → Option (List SegmentBin)
  build_bins overrides by_label [] [] = some []
  build_bins overrides by_label (brow ∷ rows) (records ∷ bins) =
      elim (build_bin u overrides by_label brow records) [
        | none ↦ none
        | some b ↦ elim (build_bins overrides by_label rows bins) [
          | none ↦ none
          | some l ↦ some (b ∷ l)
        ]
      ]
  build_bins overrides by_label _ _ = none

  -- The result is the cache and whether the call returned: where it raises, the cache is as before.
  unfoldable pub derive :
      BoundaryCache → CollectionSnapshot → Overrides → SegmentCache → SegmentCache × Bool
  derive boundaries snapshot overrides cache =
      let rows = shelf_order boundaries.rows in
      if is_nil rows
      then (empty, true)
      else elim (build_bins overrides snapshot.by_label rows
          (bin_records u rows snapshot.by_label)) [
            | none ↦ (cache, false)
            | some bins ↦ (record { bins = bins; by_coord = index_bins [] bins }, true)
          ]

  unfoldable pub get_bins_for_label : SegmentCache → Text → List SegmentBin
  get_bins_for_label cache label =
      let key = u.casefold label in
      keep (λ b. any (λ s. text_eq (u.casefold s.label) key) b.segments) cache.bins

  -- The segment of one bin that holds the rank.
  unfoldable pub find_segment : Text → ℕ → List LabelSegment → Option LabelSegment
  find_segment key rank [] = none
  find_segment key rank (seg ∷ segments) =
      let rest = find_segment key rank segments in
      if text_eq (u.casefold seg.label) key
        && leb seg.first_rank_in_label rank
        && leb rank seg.last_rank_in_label
      then some seg
      else rest

  unfoldable pub find_in_bins : Text → ℕ → List SegmentBin → Option (SegmentBin × LabelSegment)
  find_in_bins key rank [] = none
  find_in_bins key rank (b ∷ bins) =
      let rest = find_in_bins key rank bins in
      elim (find_segment key rank b.segments) [ none ↦ rest | some seg ↦ some (b, seg) ]

  unfoldable pub get_segment_for_rank : SegmentCache → Text → ℕ → Option (SegmentBin × LabelSegment)
  get_segment_for_rank cache label rank = find_in_bins (u.casefold label) rank cache.bins

unfoldable pub get_bin : SegmentCache → ℕ → ℕ → ℕ → Option SegmentBin
get_bin cache unit_id row col = get coord_key (unit_id, row, col) cache.by_coord

unfoldable pub publish_from : SegmentCache → SegmentCache → SegmentCache
publish_from prepared cache = record { bins = prepared.bins; by_coord = prepared.by_coord }

unfoldable pub load_bins : List SegmentBin → SegmentCache → SegmentCache
load_bins bins cache = record { bins = bins; by_coord = index_bins [] bins }

unfoldable pub invalidate : SegmentCache → SegmentCache
invalidate cache = record { bins = []; by_coord = [] }
