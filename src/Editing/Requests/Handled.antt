-- ===== src/Editing/Requests/Handled.antt =====
-- The four ways in which a request that edits cut points can end.
use gruvax.Base.{
  ◌≡◌, refl, sym, subst, Bool, true, false, Option, none, some, List, [], ◌∷◌, Text, if◌then◌else◌,
  is_nil, map,
}
use gruvax.Unicode.{Unicode}
use gruvax.Normalize.{strip}
use gruvax.Segments.Assign.{Position}
use gruvax.Editing.{
  Source, CachedResponse, Environment, Profile, Outcome, answered, refused, Refusal,
  BoundaryChanged, announce, Written, aborted, written, write_edits, Database, HistoryRow, Edit,
  Cut, cut_insert, phantom_boundary, fetch_current_boundary, fetch_change_set_rows,
}
use gruvax.Editing.Validation.{new_cut}
use gruvax.Editing.Replace.{put_bin_cut, CutEditBody, is_phantom, write_known, write_checked}
use gruvax.Editing.Replace
use gruvax.Editing.Insert.{insert_cut, plan_insert, Plan, rejected, index_error, planned, carry_out}
use gruvax.Editing.Insert
use gruvax.Editing.Idempotency.{
  check_idempotency, store_idempotency, cleanup_idempotency, insert_key,
}
use gruvax.Editing.Bulk.{
  BoundaryEdit, Batch, failed, violated, done, written_edit, edit_of, write_updates, write_one,
  after_one, put_checked, put_cube_boundary, after_bulk, bulk_checked, write_bulk, unless_cached,
  bulk_write_cubes,
}
use gruvax.Base.Ratio.{Ratio}
use gruvax.Segments.Bins.{SegmentBin}
use gruvax.Editing.Widths.{
  LabelOverride, set_bin_overrides, answer_overrides, with_bin, labels_checked, sums_checked,
  commit_overrides,
}
use gruvax.Editing.Revert.{
  revert_change_set, revert_found, revert_rows, after_reversal, no_report, Reversal, abandoned,
  reversed,
}
use gruvax.Editing.Requests.{
  Request, Status, client_error, ok, server_error, put, insert, undo, put_boundary, write_all,
  set_widths, handle, status_of,
}
use gruvax.Editing.Requests.Steps.{
  write_updates-IsReached, write_one-IsReached, IsReached-append, store, step, same, IsReached,
  write_edits-IsReached, write_known-IsReached, revert_rows-IsReached, revert_rows_idle,
}

module _ (u : Unicode) where
  abbrev pub respond : {A : Type 0} → Outcome A × Profile → Status × Profile
  respond o = (status_of o.0, o.1)

  pub data IsHandled (env : Environment) (s : Profile) : Status × Profile → Type 1 where
    declined : (r : Refusal) → IsHandled env s (client_error r, s)
    broken : IsHandled env s (server_error, s)
    quiet : IsHandled env s (ok, s)
    told :
        {A : Type 0} (db : Database) (event : BoundaryChanged) (answer : A)
        → IsReached env s.database db
        → IsHandled env s (respond (announce u env event answer (record s { database = db })))

  committed_insert :
      (env : Environment) (cascade : List Edit) (s : Profile) (w : Written)
      → write_edits env cut_insert cascade s.database ≡ w
      → IsHandled env s (respond (Insert.after_write u env cascade s w))
  unfolding Insert.after_write status_of
  committed_insert env cascade s (aborted r) e = declined r
  committed_insert env cascade s (written db) e =
      told db _ _ (write_edits-IsReached env cut_insert cascade s.database db e)

  committed_put :
      (env : Environment) (p : Position) (c : Cut) (s : Profile) (prev : Option Cut) (w : Written)
      → write_known env p c prev s.database ≡ w
      → IsHandled env s (respond (Replace.after_write u env p s w))
  unfolding Replace.after_write status_of
  committed_put env p c s prev (aborted r) e = declined r
  committed_put env p c s prev (written db) e =
      told db _ _ (write_known-IsReached env p c prev s.database db e)

  committed_reversal :
      (env : Environment) (rows : List HistoryRow) (s : Profile) (v : Reversal)
      → revert_rows env rows s.database no_report ≡ v
      → IsHandled env s (respond (after_reversal u env s v))
  unfolding after_reversal status_of
  committed_reversal env rows s (abandoned r) e = declined r
  committed_reversal env rows s (reversed db report) e = reported (is_nil report.reverted) refl
    where
      reported :
          (b : Bool)
          → is_nil report.reverted ≡ b
          → IsHandled env s (
              respond (
                if b
                then (answered report, record s { database = db })
                else announce u env
                    (report.reverted, some env.new_id)
                    report
                    (record s { database = db })))
      reported true nil =
          let idle = revert_rows_idle env rows s.database db no_report report e nil in
          subst (λ (d : Database). IsHandled env s (ok, record s { database = d })) (sym idle.0)
            quiet
      reported false nil =
          told db _ _ (revert_rows-IsReached env rows s.database db no_report report e)

  carry_out-IsHandled :
      (env : Environment) (s : Profile) (p : Plan) → IsHandled env s (respond (carry_out u env s p))
  unfolding carry_out status_of
  carry_out-IsHandled env s (rejected r) = declined r
  carry_out-IsHandled env s index_error = broken
  carry_out-IsHandled env s (planned cascade) =
      committed_insert env cascade s (write_edits env cut_insert cascade s.database) refl

  write_checked-IsHandled :
      (env : Environment) (p : Position) (c : Cut) (s : Profile) (error : Option Text)
      → IsHandled env s (respond (write_checked u env p c s error))
  unfolding write_checked status_of
  write_checked-IsHandled env p c s (some label) = declined _
  write_checked-IsHandled env p c s none =
      committed_put env p c s (fetch_current_boundary p s.database) _ refl

  revert_found-IsHandled :
      (env : Environment) (rows : List HistoryRow) (s : Profile)
      → IsHandled env s (respond (revert_found u env rows s))
  unfolding revert_found status_of
  revert_found-IsHandled env [] s = declined _
  revert_found-IsHandled env (hist ∷ rows) s =
      committed_reversal env (hist ∷ rows) s (revert_rows env (hist ∷ rows) s.database no_report)
        refl

  put_bin_cut-IsHandled :
      (env : Environment) (p : Position) (body : CutEditBody) (s : Profile) (phantom : Bool)
      (error : Option Text)
      → IsHandled env s (
          respond (
            if phantom
            then (refused phantom_boundary, s)
            else write_checked u env p
                (new_cut (strip u body.first_label) (strip u body.first_catalog))
                s
                error))
  unfolding status_of
  put_bin_cut-IsHandled env p body s true error = declined _
  put_bin_cut-IsHandled env p body s false error = write_checked-IsHandled env p _ s error

  committed_one :
      (env : Environment) (e : Edit) (p : Position) (s : Profile) (prev : Option Cut) (b : Batch)
      → write_one env e prev s.database ≡ b
      → IsHandled env s (respond (after_one u env p s b))
  unfolding after_one status_of
  committed_one env e p s prev (failed r) h = declined r
  committed_one env e p s prev violated h = broken
  committed_one env e p s prev (done db) h =
      told db _ _ (write_one-IsReached env e prev s.database db h)

  put_checked-IsHandled :
      (env : Environment) (e : BoundaryEdit) (s : Profile) (error : Option Text)
      → IsHandled env s (respond (put_checked u env e s error))
  unfolding put_checked status_of
  put_checked-IsHandled env e s (some label) = declined _
  put_checked-IsHandled env e s none =
      committed_one env (written_edit e) e.place s (fetch_current_boundary e.place s.database) _
        refl

  put_cube_boundary-IsHandled :
      (env : Environment) (e : BoundaryEdit) (s : Profile) (phantom : Bool) (error : Option Text)
      → IsHandled env s
          (respond (if phantom then (refused phantom_boundary, s) else put_checked u env e s error))
  unfolding status_of
  put_cube_boundary-IsHandled env e s true error = declined _
  put_cube_boundary-IsHandled env e s false error = put_checked-IsHandled env e s error

  stored-IsReached :
      (env : Environment) (key : Option Text) (response : CachedResponse) (a b : Database)
      → IsReached env a b
      → IsReached env a (cleanup_idempotency env (store_idempotency env key response b))
  unfolding cleanup_idempotency store_idempotency
  stored-IsReached env none response a b r = IsReached-append r (step (store b _ b.overrides) same)
  stored-IsReached env (some key) response a b r = stored (is_nil key)
    where
      stored :
          (empty : Bool)
          → IsReached env a (
              cleanup_idempotency env (
                if empty then b else (record b {
                  idempotency_keys = insert_key env key response b.idempotency_keys;
                })))
      stored true = IsReached-append r (step (store b _ b.overrides) same)
      stored false = IsReached-append r (
          step (store b (insert_key env key response b.idempotency_keys) b.overrides)
            (step (store _ _ b.overrides) same))

  committed_bulk :
      (env : Environment) (key : Option Text) (source : Option Source) (updates : List BoundaryEdit)
      (s : Profile) (b : Batch)
      → write_updates env source (map edit_of updates) s.database ≡ b
      → IsHandled env s (respond (after_bulk u env key updates s b))
  unfolding after_bulk status_of
  committed_bulk env key source updates s (failed r) h = declined r
  committed_bulk env key source updates s violated h = broken
  committed_bulk env key source updates s (done db) h = told _ _ _ (
      stored-IsReached env key _ s.database db
        (write_updates-IsReached env source (map edit_of updates) s.database db h))

  bulk_checked-IsHandled :
      (env : Environment) (key : Option Text) (source : Option Source) (updates : List BoundaryEdit)
      (s : Profile) (error : Option Text)
      → IsHandled env s (respond (bulk_checked u env key source updates s error))
  unfolding bulk_checked status_of
  bulk_checked-IsHandled env key source updates s (some label) = declined _
  bulk_checked-IsHandled env key source updates s none =
      committed_bulk env key source updates s _ refl

  write_bulk-IsHandled :
      (env : Environment) (key : Option Text) (source : Option Source) (updates : List BoundaryEdit)
      (s : Profile) (phantom : Bool) (error : Option Text)
      → IsHandled env s (
          respond (
            if phantom
            then (refused phantom_boundary, s)
            else bulk_checked u env key source updates s error))
  unfolding status_of
  write_bulk-IsHandled env key source updates s true error = declined _
  write_bulk-IsHandled env key source updates s false error =
      bulk_checked-IsHandled env key source updates s error

  unless_cached-IsHandled :
      (env : Environment) (key : Option Text) (source : Option Source) (updates : List BoundaryEdit)
      (s : Profile) (cached : Option CachedResponse)
      → IsHandled env s (respond (unless_cached u env key source updates s cached))
  unfolding unless_cached write_bulk status_of
  unless_cached-IsHandled env key source updates s (some response) = quiet
  unless_cached-IsHandled env key source updates s none =
      write_bulk-IsHandled env key source updates s _ _

  sums_checked-IsHandled :
      (env : Environment) (key : Option Text) (p : Position) (overrides : List LabelOverride)
      (s : Profile) (error : Option Ratio)
      → IsHandled env s (respond (sums_checked u env key p overrides s error))
  unfolding sums_checked commit_overrides status_of
  sums_checked-IsHandled env key p overrides s (some total) = declined _
  sums_checked-IsHandled env key p overrides s none = told _ _ _ (
      stored-IsReached env key _ s.database _
        (step (store s.database s.database.idempotency_keys _) same))

  labels_checked-IsHandled :
      (env : Environment) (key : Option Text) (p : Position) (overrides : List LabelOverride)
      (s : Profile) (bin_labels phantoms : List Text)
      → IsHandled env s (respond (labels_checked u env key p overrides s bin_labels phantoms))
  unfolding labels_checked status_of
  labels_checked-IsHandled env key p overrides s bin_labels [] =
      sums_checked-IsHandled env key p overrides s _
  labels_checked-IsHandled env key p overrides s bin_labels (label ∷ labels) = declined _

  with_bin-IsHandled :
      (env : Environment) (key : Option Text) (p : Position) (overrides : List LabelOverride)
      (s : Profile) (bin : Option SegmentBin)
      → IsHandled env s (respond (with_bin u env key p overrides s bin))
  unfolding with_bin status_of
  with_bin-IsHandled env key p overrides s none = declined _
  with_bin-IsHandled env key p overrides s (some b) =
      labels_checked-IsHandled env key p overrides s _ _

  answer_overrides-IsHandled :
      (env : Environment) (key : Option Text) (p : Position) (overrides : List LabelOverride)
      (s : Profile) (cached : Option CachedResponse)
      → IsHandled env s (respond (answer_overrides u env key p overrides s cached))
  unfolding answer_overrides status_of
  answer_overrides-IsHandled env key p overrides s (some response) = quiet
  answer_overrides-IsHandled env key (unit_id, (row, col)) overrides s none =
      with_bin-IsHandled env key (unit_id, (row, col)) overrides s _

  -- Every request ends in one of the four ways.
  pub handle-IsHandled :
      (env : Environment) (request : Request) (s : Profile)
      → IsHandled env s (handle u env request s)
  unfolding handle insert_cut revert_change_set put_bin_cut put_cube_boundary bulk_write_cubes
      set_bin_overrides
  handle-IsHandled env (put p body) s = put_bin_cut-IsHandled env p body s _ _
  handle-IsHandled env (insert body) s = carry_out-IsHandled env s (plan_insert u body s)
  handle-IsHandled env (undo id) s =
      revert_found-IsHandled env (fetch_change_set_rows id s.database) s
  handle-IsHandled env (put_boundary e) s = put_cube_boundary-IsHandled env e s _ _
  handle-IsHandled env (write_all key source updates) s =
      unless_cached-IsHandled env key source updates s (check_idempotency key s.database)
  handle-IsHandled env (set_widths key p overrides) s =
      answer_overrides-IsHandled env key p overrides s (check_idempotency key s.database)
