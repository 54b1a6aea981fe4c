-- ===== src/Editing/Preview.antt =====
-- `validate_boundary` of gruvax/api/admin/cubes.py, the dry run of a bulk edit.
use gruvax.Base.{
  ℕ, Bool, true, false, not, ◌&&◌, Option, none, some, List, [], ◌∷◌, map, Text, if◌then◌else◌, any,
  is_nil, leb,
}
use gruvax.Base.Ratio.{Ratio, ratio}
use gruvax.Unicode.{Unicode}
use gruvax.Boundaries.{BoundaryRow}
use gruvax.Segments.Assign.{Position}
use gruvax.Segments.Bins.{SegmentBin}
use gruvax.Segments.Derive.{SegmentCache, get_bin}
use gruvax.BinMath.{count_records_in_bin}
use gruvax.Editing.{Profile, Outcome, answered, refused, contiguity_error}
use gruvax.Editing.Validation.{validate_contiguity}
use gruvax.Editing.Bulk.{BoundaryEdit, is_phantom_edit}

-- `max(1, int(raw))`: `none` is a setting that `int` refuses, and a number below zero counts as zero.
unfoldable pub nominal_capacity : Option ℕ → ℕ
nominal_capacity none = 95
nominal_capacity (some n) = if leb n 1 then 1 else n

-- The counts after an edit are those before it, so that `delta` is zero.
pub record Movement : Type 0 where
  pub place : Position
  pub records_before : ℕ
  pub records_after : ℕ
  pub fill_level_before : Ratio
  pub fill_level_after : Ratio

unfoldable pub records_in : Option SegmentBin → ℕ
records_in none = 0
records_in (some b) = count_records_in_bin b

unfoldable pub compute_movement_counts : Position → SegmentCache → ℕ → Movement
compute_movement_counts (unit_id, (row, col)) cache capacity =
    let records = records_in (get_bin cache unit_id row col) in
    record {
      place = (unit_id, (row, col));
      records_before = records;
      records_after = records;
      fill_level_before = ratio records capacity;
      fill_level_after = ratio records capacity;
    }

pub data EditResult : Type 0 where
  valid : Movement → EditResult
  phantom : Position → EditResult

abbrev pub is_valid : EditResult → Bool
is_valid (valid m) = true
is_valid (phantom p) = false

-- `updates_as_dicts`.
abbrev pub row_of : BoundaryEdit → BoundaryRow
row_of e = record {
  unit_id = e.place.0;
  row = e.place.1.0;
  col = e.place.1.1;
  first_label = e.first_label;
  first_catalog = e.first_catalog;
  is_empty = e.is_empty;
}

abbrev pub all_valid : List EditResult → Bool
all_valid results = not (is_nil results) && not (any (λ r. not (is_valid r)) results)

-- `results[0]["movement_counts"] if len(results) == 1 else None`; those of a phantom are empty.
unfoldable pub single_movement : List EditResult → Option (List Movement)
single_movement (valid m ∷ []) = some (m ∷ [])
single_movement (phantom p ∷ []) = some []
single_movement _ = none

pub record Preview : Type 0 where
  pub is_all_valid : Bool
  pub results : List EditResult
  pub movement_counts : Option (List Movement)

module _ (u : Unicode) where
  -- One round of the loop.
  unfoldable pub preview_edit : Profile → ℕ → BoundaryEdit → EditResult
  preview_edit s capacity e =
      if is_phantom_edit u e s.database
      then phantom e.place
      else valid (compute_movement_counts e.place s.segment_cache capacity)

  preview_of : List EditResult → Option Text → Outcome Preview
  preview_of results (some label) = refused (contiguity_error label)
  preview_of results none = answered (record {
    is_all_valid = all_valid results;
    results = results;
    movement_counts = single_movement results;
  })

  -- The contiguity of the updates by themselves, all units together.
  unfoldable pub validate_boundary : Option ℕ → List BoundaryEdit → Profile → Outcome Preview
  unfolding preview_of
  validate_boundary raw_capacity updates s =
      let results = map (preview_edit s (nominal_capacity raw_capacity)) updates in
      let error = validate_contiguity u (map row_of updates) in
      if all_valid results then preview_of results error else preview_of results none
