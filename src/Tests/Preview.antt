-- ===== src/Tests/Preview.antt =====
-- The dry run of a bulk edit beside the check of the write, and a suggested cut.
use gruvax.Base.{◌≡◌, refl, true, false, none, some, List, [], ◌∷◌, codes}
use gruvax.Base.Sort.{sort_by, insert_by}
use gruvax.Base.Dict.{get, put}
use gruvax.Unicode.Ascii.{ascii}
use gruvax.Boundaries.{BoundaryRow, BoundaryCache}
use gruvax.Segments.Assign.{shelf_order}
use gruvax.Editing.{Profile, refused, contiguity_error, answered}
use gruvax.Editing.Validation.{
  validate_contiguity, check_units, by_unit, append_edit, build_proposed_cuts, target_unit,
  replace_entry, apply_cascade, cascade_lookup, label_sequence, start_labels, label_starts,
  first_scattered, is_scattered, has_gap,
}
use gruvax.Editing.Replace.{is_phantom}
use gruvax.Editing.Bulk.{BoundaryEdit, is_phantom_edit, check_contiguity_for_writes, edit_of}
use gruvax.Editing.Preview.{
  valid, validate_boundary, preview_edit, nominal_capacity, compute_movement_counts,
  single_movement,
}
use gruvax.Editing.Suggest.{next_populated, find_next_populated_cube}
use gruvax.Tests.{impulse, blue_note, boundaries, snapshot, no_cache}

abbrev argo : BoundaryRow
argo = record impulse {
  col = 1;
  first_label = some (codes "Argo");
  first_catalog = some (codes "LP 1");
}

-- Three labels in one unit, and a second unit with one cube.
abbrev rows : List BoundaryRow
rows = impulse ∷ argo ∷ blue_note ∷ record argo { unit_id = 2; row = 0; col = 0 } ∷ []

abbrev cache : BoundaryCache
cache = record { generation = 1; rows = rows; overrides = [] }

abbrev profile : Profile
profile = record {
  database = record {
    boundaries = rows;
    overrides = [];
    history = [];
    collection = [];
    idempotency_keys = [];
  };
  boundary_cache = cache;
  segment_cache = no_cache;
  snapshot = snapshot;
  published = [];
}

abbrev impulse_again : BoundaryEdit
impulse_again = record {
  place = (1, (0, 2));
  first_label = some (codes "Impulse");
  first_catalog = some (codes "A-6");
  is_empty = false;
  force = true;
}

-- The dry run finds nothing wrong with an edit that the write refuses.
previewed :
    validate_boundary ascii none (impulse_again ∷ []) profile
    ≡ answered (record {
      is_all_valid = true;
      results = valid (compute_movement_counts (1, (0, 2)) no_cache 95) ∷ [];
      movement_counts = some (compute_movement_counts (1, (0, 2)) no_cache 95 ∷ []);
    })
unfolding validate_boundary preview_edit nominal_capacity is_phantom_edit is_phantom single_movement
    validate_contiguity label_sequence start_labels label_starts first_scattered is_scattered
    has_gap get put shelf_order sort_by insert_by
previewed = refl

not_written : check_contiguity_for_writes ascii (impulse_again ∷ []) cache ≡ some (codes "Impulse")
unfolding check_contiguity_for_writes edit_of check_units by_unit append_edit build_proposed_cuts
    target_unit replace_entry apply_cascade cascade_lookup validate_contiguity label_sequence
    start_labels label_starts first_scattered is_scattered has_gap get put shelf_order sort_by
    insert_by
not_written = refl

-- The same label at both ends of two units.
abbrev two_units : List BoundaryEdit
two_units =
    record impulse_again { place = (1, (0, 0)) }
    ∷ record impulse_again { place = (1, (0, 1)); first_label = some (codes "Argo") }
    ∷ record impulse_again { place = (2, (0, 0)) }
    ∷ []

-- The dry run refuses edits that the check of the write lets pass.
not_previewed :
    validate_boundary ascii none two_units profile ≡ refused (contiguity_error (codes "Impulse"))
unfolding validate_boundary preview_edit nominal_capacity is_phantom_edit is_phantom single_movement
    validate_contiguity label_sequence start_labels label_starts first_scattered is_scattered
    has_gap get put shelf_order sort_by insert_by
not_previewed = refl

passed : check_contiguity_for_writes ascii two_units cache ≡ none
unfolding check_contiguity_for_writes edit_of check_units by_unit append_edit build_proposed_cuts
    target_unit replace_entry apply_cascade cascade_lookup validate_contiguity label_sequence
    start_labels label_starts first_scattered is_scattered has_gap get put shelf_order sort_by
    insert_by
passed = refl

-- The scan passes over the empty cube.
next_one : find_next_populated_cube (1, (0, 0)) boundaries ≡ some (1, (0, 2))
unfolding find_next_populated_cube next_populated shelf_order sort_by insert_by
next_one = refl
