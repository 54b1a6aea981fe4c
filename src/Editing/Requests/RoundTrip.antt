-- ===== src/Editing/Requests/RoundTrip.antt =====
-- An insert, and the revert of its change set.
use gruvax.Base.{
  ◌≡◌, ◌≢◌, refl, sym, ap, subst, ◌∙◌, ℕ, ◌≤◌, true, false, some, List, [], ◌∷◌, ◌++◌, ◌&&◌, map,
  arith, All, In, All-append, any, keep, keep-append, ltb, drop, text_eq, text_eq_refl,
}
use gruvax.Unicode.{Unicode}
use gruvax.Boundaries.{BoundaryRow}
use gruvax.Segments.Assign.{Position, shelf_order}
use gruvax.Editing.{
  BoundaryChanged, Edit, Cut, Environment, Source, Database, HistoryRow, Profile, Refusal,
  cut_insert, announce, same_place, has_newer_changes, fetch_change_set_rows,
}
use gruvax.Editing.Apart.{
  IsApart, Places, places, affected, entry, apply_edits, places-apply_edits,
  write_edits-apply_edits, shelf_order-IsApart,
}
use gruvax.Editing.Insert.{
  InsertCutBody, before, insertion_point, planned, plan_insert, insert_cut, shift,
}
use gruvax.Editing.Insert.Planned.{stripped}
use gruvax.Editing.Insert.Moves.{
  planned_shift, shift_known, shift-IsApart, drop-IsApart, carried, announced-database,
}
use gruvax.Editing.Revert.{Report, no_report, revert_found, after_reversal, revert_change_set}
use gruvax.Editing.Revert.Loop.{undo, Untouched, revert_rows-all}
use gruvax.Editing.Revert.Restore.{IsComplete, apply_edits-undo}
use gruvax.Editing.Requests.{client_error, status_of}
use gruvax.Editing.Requests.Invariant.{IsFresh, announce-status}

-- The log knows no change set of this id, and nothing of a later time.
abbrev pub IsNew : Environment → List HistoryRow → Type 0
IsNew env = All (λ h. (text_eq h.change_set_id env.new_id ≡ false) × (h.changed_at ≤ env.now))

no_newer :
    (p : Position) (now : ℕ) (history : List HistoryRow)
    → All (λ h. h.changed_at ≤ now) history
    → any (λ h. same_place h.place p && ltb now h.changed_at) history ≡ false
no_newer p now [] h = refl
no_newer p now (r ∷ history) h = ground (arith, no_newer p now history h.1, h.0)

Untouched-log :
    (now : ℕ) (db : Database) (edits : List Edit)
    → All (λ h. h.changed_at ≤ now) db.history
    → Untouched now db edits
unfolding has_newer_changes
Untouched-log now db [] h = tt
Untouched-log now db (e ∷ edits) h = (no_newer e.0 now db.history h, Untouched-log now db edits h)

module _ (env : Environment) (source : Source) (rows : List BoundaryRow) where
  entries-now :
      (edits : List Edit) → All (λ h. h.changed_at ≤ env.now) (map (entry env source rows) edits)
  entries-now [] = tt
  entries-now (e ∷ edits) = (omega arith, entries-now edits)

  keep-entries :
      (edits : List Edit)
      → keep (λ h. text_eq h.change_set_id env.new_id) (map (entry env source rows) edits)
        ≡ map (entry env source rows) edits
  keep-entries [] = refl
  keep-entries (e ∷ edits) =
      rw (text_eq_refl env.new_id) (ap (◌∷◌ (entry env source rows e)) (keep-entries edits))

  keep-old :
      (history : List HistoryRow)
      → IsNew env history
      → keep (λ h. text_eq h.change_set_id env.new_id) history ≡ []
  keep-old [] h = refl
  keep-old (r ∷ history) h = rw h.0.0 (keep-old history h.1)

  IsNew-now :
      (history : List HistoryRow) → IsNew env history → All (λ h. h.changed_at ≤ env.now) history
  IsNew-now [] h = tt
  IsNew-now (r ∷ history) h = (h.0.1, IsNew-now history h.1)

module _ (u : Unicode) where
  -- The revert of a change set whose rows stand at the end of the log.
  revert_logged :
      (env env' : Environment) (source : Source) (rows : List BoundaryRow) (e : Edit)
      (edits : List Edit) (s : Profile) (history : List HistoryRow)
      → s.database.history ≡ history ++ map (entry env source rows) (e ∷ edits)
      → IsNew env history
      → IsApart (affected (e ∷ edits))
      → Places (e ∷ edits) s.database.boundaries
      → (db : Database) × (revert_change_set u env' env.new_id s
          ≡ announce u env'
              (affected (e ∷ edits), some env'.new_id)
              (record no_report { reverted = affected (e ∷ edits) })
              (record s { database = db }))
        × (db.boundaries ≡ apply_edits (undo rows (e ∷ edits)) s.database.boundaries)
  unfolding revert_change_set fetch_change_set_rows revert_found after_reversal
  revert_logged env env' source rows e edits s history logged new apart known =
      let log = map (entry env source rows) (e ∷ edits) in
      let found : fetch_change_set_rows env.new_id s.database ≡ log =
        ap (keep (λ h. text_eq h.change_set_id env.new_id)) logged
        ∙ keep-append (λ h. text_eq h.change_set_id env.new_id) history log
        ∙ ap (λ l. l ++ keep (λ h. text_eq h.change_set_id env.new_id) log)
            (keep-old env source rows history new)
        ∙ keep-entries env source rows (e ∷ edits) in
      let past : All (λ h. h.changed_at ≤ env.now) s.database.history =
        subst (All (λ h. h.changed_at ≤ env.now)) (sym logged) (
          All-append _ history log (IsNew-now env source rows history new)
            (entries-now env source rows (e ∷ edits))) in
      let (db, w, applied) =
        revert_rows-all env env' source rows (e ∷ edits) s.database no_report apart
          (Untouched-log env.now s.database (e ∷ edits) past) known in
      (db, ap (λ l. revert_found u env' l s) found ∙ ap (after_reversal u env' s) w, applied)

  -- A cascade is not empty where it meets an empty cube.
  shift-cons :
      (c : Cut) (rows : List BoundaryRow)
      → any (λ b. b.is_empty) rows ≡ true
      → (e : Edit) × (edits : List Edit) × (shift c rows ≡ e ∷ edits)
  unfolding shift
  shift-cons c [] free = ground arith
  shift-cons c (r ∷ rows) free = (_, _, refl)

  -- The revert of a change set that was just made.
  revert_edits :
      (env env' : Environment) (cascade : List Edit) (e : Edit) (edits : List Edit) (db : Database)
      (s s' : Profile)
      → cascade ≡ e ∷ edits
      → s'.database ≡ db
      → db.history ≡ s.database.history ++ map (entry env cut_insert s.database.boundaries) cascade
      → db.boundaries ≡ apply_edits cascade s.database.boundaries
      → IsNew env s.database.history
      → IsApart (places s.database.boundaries)
      → IsComplete s.database.boundaries
      → IsApart (affected cascade)
      → Places cascade s.database.boundaries
      → ((r : Refusal) → status_of (revert_change_set u env' env.new_id s').0 ≢ client_error r)
        × ((revert_change_set u env' env.new_id s').1.database.boundaries ≡ s.database.boundaries)
  revert_edits env env' cascade e edits db s s' cons is_db logged applied new apart complete
        distinct known =
      let rows = s.database.boundaries in
      let boundaries : s'.database.boundaries ≡ apply_edits (e ∷ edits) rows =
        ap (λ d. d.boundaries) is_db ∙ applied ∙ ap (λ es. apply_edits es rows) cons in
      let known' : Places (e ∷ edits) s'.database.boundaries =
        subst (λ (ps : List Position). All (λ d. In d.0 ps) (e ∷ edits))
          (sym (ap places boundaries ∙ places-apply_edits (e ∷ edits) rows))
          (subst (λ (es : List Edit). Places es rows) cons known) in
      let (db', w, undone) =
        revert_logged env env' cut_insert rows e edits s' s.database.history
          (ap (λ d. d.history) is_db
            ∙ logged
            ∙ ap (λ es. s.database.history ++ map (entry env cut_insert rows) es) cons)
          new (subst (λ (es : List Edit). IsApart (affected es)) cons distinct) known' in
      let event : BoundaryChanged = (affected (e ∷ edits), some env'.new_id) in
      let report : Report = record no_report { reverted = affected (e ∷ edits) } in
      (
        λ r h.
            announce-status u env' event report (record s' { database = db' }) r
              (ap (λ o. status_of o.0) (sym w) ∙ h),
        ap (λ o. o.1.database.boundaries) w
            ∙ ap (λ d. d.boundaries)
                (announced-database u env' event report (record s' { database = db' }))
            ∙ undone
            ∙ ap (apply_edits (undo rows (e ∷ edits))) boundaries
            ∙ apply_edits-undo rows (e ∷ edits) apart complete,
      )

  -- Let the checks of an insert pass, where the cache is fresh, the cubes have places of their own, the
  -- filled cubes have texts, and the log knows neither the insert's id nor a later time. Then a revert of
  -- its change set, at any time, is not refused, and gives the table of boundaries back as it was.
  pub insert_cut-revert :
      (env env' : Environment) (body : InsertCutBody) (s : Profile) (cascade : List Edit) (i : ℕ)
      (p : Position)
      → IsFresh s
      → IsApart (places s.database.boundaries)
      → IsComplete s.database.boundaries
      → IsNew env s.database.history
      → plan_insert u body s ≡ planned cascade
      → insertion_point body.after (shelf_order s.database.boundaries) ≡ before i p
      → ((r : Refusal)
          → status_of (revert_change_set u env' env.new_id (insert_cut u env body s).1).0
            ≢ client_error r)
        × ((revert_change_set u env' env.new_id (insert_cut u env body s).1).1.database.boundaries
            ≡ s.database.boundaries)
  insert_cut-revert env env' body s cascade i p fresh apart complete new plan point =
      let rows = s.database.boundaries in
      let c = stripped u body in
      let (cascade_is, free) = planned_shift u body s cascade i p fresh plan point in
      let (e, edits, cons) = shift-cons c (drop i (shelf_order rows)) free in
      let known : Places cascade rows =
        subst (λ (es : List Edit). Places es rows) (sym cascade_is) (shift_known c i rows) in
      let distinct : IsApart (affected cascade) =
        subst (λ (es : List Edit). IsApart (affected es)) (sym cascade_is)
          (shift-IsApart c (drop i (shelf_order rows))
            (drop-IsApart i (shelf_order rows) (shelf_order-IsApart rows apart))) in
      let (db, w, applied, logged) =
        write_edits-apply_edits env cut_insert cascade s.database known in
      let event : BoundaryChanged = (affected cascade, some env.new_id) in
      let is_db : (insert_cut u env body s).1.database ≡ db =
        ap (λ o. o.1.database) (carried u env body s cascade db plan w)
        ∙ announced-database u env event (affected cascade) (record s { database = db }) in
      revert_edits env env' cascade e edits db s (insert_cut u env body s).1 (cascade_is ∙ cons)
        is_db (logged distinct) applied new apart complete distinct known
