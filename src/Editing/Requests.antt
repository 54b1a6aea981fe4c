-- ===== src/Editing/Requests.antt =====
-- The requests that edit cut points and widths, as steps of a profile: the handlers of
-- gruvax/api/admin/segments.py, gruvax/api/admin/cubes.py and gruvax/api/admin/history.py.
pub mod Steps
pub mod Handled
pub mod Invariant
pub mod RoundTrip
pub mod Replay
use gruvax.Base.{Option, List, [], ◌∷◌, Text}
use gruvax.Unicode.{Unicode}
use gruvax.Segments.Assign.{Position}
use gruvax.Editing.{Environment, Profile, Outcome, answered, refused, raised, Refusal, Source}
use gruvax.Editing.Replace.{CutEditBody, put_bin_cut}
use gruvax.Editing.Insert.{InsertCutBody, insert_cut}
use gruvax.Editing.Bulk.{BoundaryEdit, put_cube_boundary, bulk_write_cubes}
use gruvax.Editing.Widths.{LabelOverride, set_bin_overrides}
use gruvax.Editing.Revert.{revert_change_set}

pub data Request : Type 0 where
  put : Position → CutEditBody → Request
  insert : InsertCutBody → Request
  undo : Text → Request
  put_boundary : BoundaryEdit → Request
  write_all : Option Text → Option Source → List BoundaryEdit → Request
  set_widths : Option Text → Position → List LabelOverride → Request

-- The status of a response.
pub data Status : Type 0 where
  ok : Status
  client_error : Refusal → Status
  server_error : Status

unfoldable pub status_of : {A : Type 0} → Outcome A → Status
status_of (answered a) = ok
status_of (refused r) = client_error r
status_of raised = server_error

module _ (u : Unicode) where
  unfoldable pub handle : Environment → Request → Profile → Status × Profile
  handle env (put p body) s =
      let (outcome, s') = put_bin_cut u env p body s in (status_of outcome, s')
  handle env (insert body) s =
      let (outcome, s') = insert_cut u env body s in (status_of outcome, s')
  handle env (undo id) s =
      let (outcome, s') = revert_change_set u env id s in (status_of outcome, s')
  handle env (put_boundary e) s =
      let (outcome, s') = put_cube_boundary u env e s in (status_of outcome, s')
  handle env (write_all key source updates) s =
      let (outcome, s') = bulk_write_cubes u env key source updates s in (status_of outcome, s')
  handle env (set_widths key p overrides) s =
      let (outcome, s') = set_bin_overrides u env key p overrides s in (status_of outcome, s')

  -- Requests one after the other, each in its own environment.
  unfoldable pub handle_all : List (Environment × Request) → Profile → Profile
  handle_all [] s = s
  handle_all ((env, request) ∷ requests) s = handle_all requests (handle env request s).1
