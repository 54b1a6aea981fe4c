-- ===== src/Editing/Revert.antt =====
-- `revert_change_set` of gruvax/api/admin/history.py: the cubes of a change set get their old cuts back,
-- but for those that a newer change has touched.
pub mod Loop
pub mod Restore
use gruvax.Base.{
  ℕ, zero, suc, Bool, true, false, not, ◌&&◌, ◌||◌, Option, none, some, List, [], ◌∷◌, ◌++◌, Text,
  if◌then◌else◌, is_nil,
}
use gruvax.Unicode.{Unicode}
use gruvax.Segments.Assign.{Position}
use gruvax.Editing.{
  Cut, Environment, Database, HistoryRow, Profile, Outcome, answered, refused, raised,
  change_set_not_found, revert, Refusal, Written, aborted, written, write_and_record,
  fetch_change_set_rows, has_newer_changes, announce,
}

-- `bool(s)` of a column that may be NULL.
abbrev pub is_truthy : Option Text → Bool
is_truthy none = false
is_truthy (some s) = not (is_nil s)

-- The cut that is written back.
unfoldable pub restored : Cut → Cut
restored prev = record prev {
  is_empty = prev.is_empty || not (is_truthy prev.first_label && is_truthy prev.first_catalog);
}

-- The two lists of the answer, in the order of the change set.
pub record Report : Type 0 where
  pub reverted : List Position
  pub skipped : List Position

abbrev pub no_report : Report
no_report = record { reverted = []; skipped = [] }

-- The transaction: it is aborted, or it gives the tables and the report.
pub data Reversal : Type 0 where
  abandoned : Refusal → Reversal
  reversed : Database → Report → Reversal

-- One row of the change set that no newer change is in the way of.
unfoldable pub revert_row : Environment → HistoryRow → Database → Written
revert_row env hist db =
    write_and_record env revert hist.place (some hist.new) (restored hist.prev) db

unfoldable pub revert_rows : Environment → List HistoryRow → Database → Report → Reversal
revert_rows env [] db report = reversed db report
revert_rows env (hist ∷ rows) db report = elim (has_newer_changes hist.place hist.changed_at db) [
  | true ↦ revert_rows env rows db (record report { skipped = report.skipped ++ hist.place ∷ [] })
  | false ↦ elim (revert_row env hist db) [
    | aborted r ↦ abandoned r
    | written db' ↦
        revert_rows env rows db' (record report { reverted = report.reverted ++ hist.place ∷ [] })
  ]
]

module _ (u : Unicode) where
  -- After the transaction: the caches are rebuilt where a cube was reverted.
  unfoldable pub after_reversal : Environment → Profile → Reversal → Outcome Report × Profile
  after_reversal env s (abandoned r) = (refused r, s)
  after_reversal env s (reversed db report) =
      if is_nil report.reverted
      then (answered report, record s { database = db })
      else announce u env (report.reverted, some env.new_id) report (record s { database = db })

  unfoldable pub revert_found : Environment → List HistoryRow → Profile → Outcome Report × Profile
  revert_found env [] s = (refused change_set_not_found, s)
  revert_found env (hist ∷ rows) s =
      after_reversal env s (revert_rows env (hist ∷ rows) s.database no_report)

  unfoldable pub revert_change_set : Environment → Text → Profile → Outcome Report × Profile
  revert_change_set env id s = revert_found env (fetch_change_set_rows id s.database) s
