-- ===== src/Tests/Editing.antt =====
-- Edits of the cut points of the small shelf.
use gruvax.Base.{
  false, some, ◌≡◌, ◌≢◌, ◌↔◌, refl, true, none, List, [], ◌∷◌, ◌++◌, codes, take, drop,
}
use gruvax.Base.Sort.{sort_by, insert_by}
use gruvax.Unicode.Ascii.{ascii}
use gruvax.Normalize.{strip, lstrip, rstrip}
use gruvax.Segments.Assign.{shelf_order}
use gruvax.Segments.Derive.{get_bin}
use gruvax.Editing.{
  Environment, Profile, Edit, Refusal, change_set_not_found, fetch_change_set_rows,
}
use gruvax.Editing.Validation.{
  new_cut, validate_contiguity, validate_cascade_contiguity, check_units, by_unit, append_edit,
  build_proposed_cuts, target_unit, replace_entry, apply_cascade, cascade_lookup, label_sequence,
  start_labels, label_starts, first_scattered, is_scattered, has_gap, validate_no_empty_bin,
  validate_shelf_overflow, overflows,
}
use gruvax.Editing.Validation.Contiguity.{validate_contiguity-IsContiguous, IsContiguous, keys_of}
use gruvax.Editing.Replace.{is_phantom}
use gruvax.Editing.Insert.{
  InsertCutBody, insertion_point, before, plan_insert, check_point, check_cascade, planned,
  cascade_cubes, shift, moved, insert_cut,
}
use gruvax.Editing.Insert.Planned.{stripped}
use gruvax.Editing.Insert.Moves.{cuts, insert_cut-moves}
use gruvax.Editing.Revert.{revert_change_set, revert_found}
use gruvax.Editing.Requests.{Request, insert, undo, handle, handle_all, client_error, status_of}
use gruvax.Editing.Requests.Invariant.{
  IsFresh, Continues, handle_refused, handle_all-Continues, handle_all-IsFresh,
}
use gruvax.Editing.Requests.RoundTrip.{insert_cut-revert}
use gruvax.Editing.Idempotency.{
  check_idempotency, cached_response, store_idempotency, cleanup_idempotency, insert_key,
}
use gruvax.Editing.Bulk.{
  BoundaryEdit, bulk_write_cubes, unless_cached, write_bulk, has_phantom, is_phantom_edit,
  bulk_checked, check_contiguity_for_writes, edit_of, write_updates, after_bulk,
}
use gruvax.Editing.{
  wizard, answered, bulk_response, write_edit, write_and_record, write_boundary, write_history_row,
  announce, rebuild_derived_caches, select_boundaries, select_overrides,
}
use gruvax.Editing.Requests.Replay.{bulk_write_cubes-again}
use gruvax.Boundaries.{load, to_overrides}
use gruvax.Segments.Derive.{derive, build_bins}
use gruvax.Segments.Bins.{build_bin}
use gruvax.Segments.Assign.{bin_records, global_records, all_records, place_records}
use gruvax.Snapshot
use gruvax.Tests.{impulse, blue_note, shelf, snapshot, no_cache}
use gruvax.Base.Dict.{get, put}

abbrev env : Environment
env = record { now = 10; new_id = codes "a"; reads = true }

abbrev later : Environment
later = record { now = 20; new_id = codes "b"; reads = true }

-- A filled cube after the empty one, as the tables and the cache hold them.
abbrev profile : Profile
profile = record {
  database = record {
    boundaries = shelf;
    overrides = [];
    history = [];
    collection = [];
    idempotency_keys = [];
  };
  boundary_cache = record { generation = 1; rows = shelf; overrides = [] };
  segment_cache = no_cache;
  snapshot = snapshot;
  published = [];
}

-- A cut before the first cube, which moves that cube's cut into the empty one.
abbrev body : InsertCutBody
body = record {
  after = none;
  new_first_label = codes " Argo";
  new_first_catalog = codes "LP 1 ";
  force = true;
}

abbrev cascade : List Edit
cascade = ((1, (0, 0)), new_cut (codes "Argo") (codes "LP 1")) ∷ ((1, (0, 1)), moved impulse) ∷ []

ordered : shelf_order shelf ≡ shelf
unfolding shelf_order sort_by insert_by
ordered = refl

fresh : IsFresh profile
unfolding shelf_order sort_by insert_by
fresh = refl

planned_cascade : plan_insert ascii body profile ≡ planned cascade
unfolding plan_insert check_point check_cascade is_phantom strip lstrip rstrip insertion_point
    shelf_order sort_by insert_by validate_shelf_overflow overflows validate_no_empty_bin get_bin
    get cascade_cubes shift validate_cascade_contiguity check_units by_unit append_edit
    validate_contiguity build_proposed_cuts target_unit replace_entry apply_cascade cascade_lookup
    put label_sequence start_labels label_starts first_scattered is_scattered has_gap
planned_cascade = refl

point : insertion_point body.after (shelf_order shelf) ≡ before 0 (1, (0, 0))
unfolding insertion_point shelf_order sort_by insert_by
point = refl

insert_cut-moves_example :
    ((r : Refusal) → status_of (insert_cut ascii env body profile).0 ≢ client_error r)
    × (cuts (shelf_order (insert_cut ascii env body profile).1.database.boundaries)
        ≡ cuts (take 0 (shelf_order shelf))
          ++ stripped ascii body ∷ cuts (drop 0 (shelf_order shelf)))
insert_cut-moves_example =
    insert_cut-moves ascii env body profile cascade 0 (1, (0, 0)) fresh
      ((refl, (refl, tt)), ((refl, tt), (tt, tt))) planned_cascade point

insert_cut-revert_example :
    ((r : Refusal)
      → status_of
          (revert_change_set ascii later (codes "a") (insert_cut ascii env body profile).1).0
        ≢ client_error r)
    × ((revert_change_set ascii later
          (codes "a")
          (insert_cut ascii env body profile).1).1.database.boundaries
        ≡ shelf)
insert_cut-revert_example =
    insert_cut-revert ascii env later body profile cascade 0 (1, (0, 0)) fresh
      ((refl, (refl, tt)), ((refl, tt), (tt, tt))) (refl, (refl, (refl, tt))) tt planned_cascade
      point

unknown_id : (handle ascii later (undo (codes "c")) profile).0 ≡ client_error change_set_not_found
unfolding handle revert_change_set revert_found fetch_change_set_rows status_of
unknown_id = refl

handle_refused_example : (handle ascii later (undo (codes "c")) profile).1 ≡ profile
handle_refused_example =
    handle_refused ascii later (undo (codes "c")) profile change_set_not_found unknown_id

abbrev requests : List (Environment × Request)
requests = (env, insert body) ∷ (later, undo (codes "a")) ∷ []

handle_all-Continues_example :
    Continues profile.database (handle_all ascii requests profile).database
handle_all-Continues_example = handle_all-Continues ascii requests profile

handle_all-IsFresh_example : IsFresh (handle_all ascii requests profile)
handle_all-IsFresh_example = handle_all-IsFresh ascii requests profile (refl, (refl, tt)) fresh

validate_contiguity-IsContiguous_example :
    (validate_contiguity ascii shelf ≡ none) ↔ IsContiguous (keys_of ascii shelf)
validate_contiguity-IsContiguous_example = validate_contiguity-IsContiguous ascii shelf

-- The empty cube is filled by a bulk request, where the collection is empty.
abbrev bare : Profile
bare = record profile { snapshot = Snapshot.empty }

abbrev fill_gap : BoundaryEdit
fill_gap = record {
  place = (1, (0, 1));
  first_label = some (codes "Argo");
  first_catalog = some (codes "LP 1");
  is_empty = false;
  force = true;
}

bulk_answered :
    (bulk_write_cubes ascii env (some (codes "k")) (some wizard) (fill_gap ∷ []) bare).0
    ≡ answered (bulk_response (codes "a") 1)
unfolding bulk_write_cubes unless_cached check_idempotency cached_response write_bulk has_phantom
    is_phantom_edit is_phantom bulk_checked check_contiguity_for_writes edit_of by_unit append_edit
    check_units validate_contiguity build_proposed_cuts target_unit replace_entry apply_cascade
    cascade_lookup get put label_sequence start_labels label_starts first_scattered is_scattered
    has_gap shelf_order sort_by insert_by write_updates write_edit write_and_record write_boundary
    write_history_row after_bulk store_idempotency cleanup_idempotency insert_key announce
    rebuild_derived_caches select_boundaries select_overrides load to_overrides derive bin_records
    global_records all_records place_records build_bins build_bin
bulk_answered = refl

bulk_write_cubes-again_example :
    bulk_write_cubes ascii later
      (some (codes "k"))
      none
      []
      (bulk_write_cubes ascii env (some (codes "k")) (some wizard) (fill_gap ∷ []) bare).1
    ≡ (
      answered (bulk_response (codes "a") 1),
      (bulk_write_cubes ascii env (some (codes "k")) (some wizard) (fill_gap ∷ []) bare).1,
    )
bulk_write_cubes-again_example =
    bulk_write_cubes-again ascii env later (codes "k") (some wizard) none (fill_gap ∷ []) [] bare
      (bulk_response (codes "a") 1) refl bulk_answered

-- One label in two cubes, of which the cube between them is not updated.
skipped_cube : validate_contiguity ascii (record blue_note { col = 0 } ∷ blue_note ∷ []) ≡ none
unfolding validate_contiguity label_sequence start_labels label_starts first_scattered is_scattered
    has_gap get put shelf_order sort_by insert_by
skipped_cube = refl
