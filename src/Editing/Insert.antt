-- ===== src/Editing/Insert.antt =====
-- `insert_cut` of gruvax/api/admin/segments.py: a new cut takes the place of the next one, which moves
-- on to the cube after it, as far as the first empty cube.
pub mod Planned
pub mod Moves
use gruvax.Base.{
  ℕ, suc, Bool, true, false, ◌&&◌, Option, none, some, List, [], ◌∷◌, map, Text, if◌then◌else◌,
  drop, find_index, is_nil,
}
use gruvax.Unicode.{Unicode}
use gruvax.Normalize.{strip}
use gruvax.Boundaries.{BoundaryRow}
use gruvax.Segments.Assign.{Position, position, shelf_order}
use gruvax.Editing.{
  Cut, Edit, Environment, Profile, Outcome, answered, refused, raised, Refusal, Written,
  phantom_boundary, no_cubes, cube_not_found, shelf_overflow, empty_bin, contiguity_error, aborted,
  written, cut_insert, is_at, write_edits, announce,
}
use gruvax.Editing.Validation.{
  new_cut, validate_shelf_overflow, validate_no_empty_bin, validate_cascade_contiguity,
}
use gruvax.Editing.Replace.{is_phantom}

-- `after` is the cube to insert after: none is a head insert.
pub record InsertCutBody : Type 0 where
  pub after : Option Position
  pub new_first_label : Text
  pub new_first_catalog : Text
  pub force : Bool

-- `_after_coords_all_or_none`: the outer `none` is its error.
unfoldable pub after_coords : Option ℕ → Option ℕ → Option ℕ → Option (Option Position)
after_coords none none none = some none
after_coords (some unit_id) (some row) (some col) = some (some (unit_id, (row, col)))
after_coords _ _ _ = none

-- `insert_after_idx + 1`, and the cube of the empty-bin check.
pub data InsertionPoint : Type 0 where
  unknown : Refusal → InsertionPoint
  before : ℕ → Position → InsertionPoint

unfoldable pub at_index : Position → Option ℕ → InsertionPoint
at_index after none = unknown (cube_not_found after)
at_index after (some i) = before (suc i) after

unfoldable pub insertion_point : Option Position → List BoundaryRow → InsertionPoint
unfolding at_index
insertion_point none [] = unknown no_cubes
insertion_point none (b ∷ boundaries) = before 0 (position b)
insertion_point (some after) boundaries = at_index after (find_index (is_at after) boundaries)

-- A cube's cut on its way to the next cube.
abbrev pub moved : BoundaryRow → Cut
moved r = record { first_label = r.first_label; first_catalog = r.first_catalog; is_empty = false }

-- `cascade_cubes`: each cube from the insertion point takes the cut handed to it and hands on its own
-- original cut, and the cube that was empty ends it. No cube at all is an `IndexError`.
unfoldable pub shift : Cut → List BoundaryRow → List Edit
shift c [] = []
shift c (nxt ∷ boundaries) =
    let rest = shift (moved nxt) boundaries in
    (position nxt, c) ∷ (if nxt.is_empty then [] else rest)

unfoldable pub cascade_cubes : Cut → List BoundaryRow → Option (List Edit)
cascade_cubes c [] = none
cascade_cubes c (next_cube ∷ boundaries) = some (shift c (next_cube ∷ boundaries))

-- What the checks come to.
pub data Plan : Type 0 where
  rejected : Refusal → Plan
  index_error : Plan
  planned : List Edit → Plan

module _ (u : Unicode) where
  unfoldable pub check_cascade : Profile → Option (List Edit) → Plan
  check_cascade s none = index_error
  check_cascade s (some cascade) = elim (validate_cascade_contiguity u s.boundary_cache cascade) [
    | none ↦ planned cascade
    | some label ↦ rejected (contiguity_error label)
  ]

  unfoldable pub check_point : InsertCutBody → Profile → InsertionPoint → Plan
  unfolding check_cascade
  check_point body s (unknown r) = rejected r
  check_point body s (before i empty_check) =
      let label = strip u body.new_first_label in
      let catalog = strip u body.new_first_catalog in
      let boundaries = shelf_order s.boundary_cache.rows in
      if validate_shelf_overflow s.boundary_cache body.after
      then rejected shelf_overflow
      else if validate_no_empty_bin u label catalog s.segment_cache empty_check
      then rejected empty_bin
      else check_cascade s (cascade_cubes (new_cut label catalog) (drop i boundaries))

  unfoldable pub plan_insert : InsertCutBody → Profile → Plan
  unfolding check_point
  plan_insert body s =
      if is_phantom u body.force (strip u body.new_first_label) (strip u body.new_first_catalog)
        s.database
      then rejected phantom_boundary
      else check_point body s (insertion_point body.after (shelf_order s.boundary_cache.rows))

  -- What follows the transaction; the answer is `affected_cubes`.
  unfoldable pub after_write :
      Environment → List Edit → Profile → Written → Outcome (List Position) × Profile
  after_write env cascade s (aborted r) = (refused r, s)
  after_write env cascade s (written db) =
      let affected = map (λ e. e.0) cascade in
      announce u env (affected, some env.new_id) affected (record s { database = db })

  unfoldable pub carry_out : Environment → Profile → Plan → Outcome (List Position) × Profile
  carry_out env s (rejected r) = (refused r, s)
  carry_out env s index_error = (raised, s)
  carry_out env s (planned cascade) =
      after_write env cascade s (write_edits env cut_insert cascade s.database)

  unfoldable pub insert_cut :
      Environment → InsertCutBody → Profile → Outcome (List Position) × Profile
  insert_cut env body s = carry_out env s (plan_insert body s)
