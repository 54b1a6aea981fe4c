-- ===== src/Editing/Revert/Loop.antt =====
-- The loop of `revert_change_set` over a change set that nothing newer is in the way of.
use mathlib.Core.List.{append_assoc, append-nil}
use gruvax.Base.{
  ◌≡◌, refl, sym, ap, subst, ◌∙◌, ℕ, Bool, false, Option, some, List, [], ◌∷◌, ◌++◌, ◌&&◌, map,
  arith, All, In, any, ltb,
}
use gruvax.Boundaries.{BoundaryRow}
use gruvax.Segments.Assign.{Position}
use gruvax.Editing.{
  Edit, Cut, Environment, Source, Database, revert, same_place, or_no_cut, has_newer_changes,
  write_and_record, write_boundary, write_history_row, set_cut,
}
use gruvax.Editing.Apart.{
  IsApart, Differs, Places, affected, prev_of, entry, apply_edits, count_at, places-set_cut,
}
use gruvax.Editing.Revert.{Report, reversed, restored, revert_row, revert_rows}

-- The edits that a revert writes.
abbrev pub undo : List BoundaryRow → List Edit → List Edit
undo rows = map (λ e. (e.0, restored (or_no_cut (prev_of rows e.0))))

-- No change of the cubes of these edits is newer than `now`.
abbrev pub Untouched : ℕ → Database → List Edit → Type 0
Untouched now db = All (λ e. has_newer_changes e.0 now db ≡ false)

any-append :
    {A : Type 0} (p : A → Bool) (xs ys : List A)
    → any p xs ≡ false
    → any p ys ≡ false
    → any p (xs ++ ys) ≡ false
any-append p [] ys h k = k
any-append p (x ∷ xs) ys h k = ground (arith, any-append p xs ys)

-- A change of another cube is not in the way.
recorded-Untouched :
    (env : Environment) (now : ℕ) (p : Position) (prev : Option Cut) (c : Cut) (db : Database)
    (edits : List Edit)
    → Differs p (affected edits)
    → Untouched now db edits
    → Untouched now
        (write_history_row env env.new_id p prev c revert (write_boundary (p, c) db).1)
        edits
unfolding write_history_row write_boundary has_newer_changes
recorded-Untouched env now p prev c db [] d h = tt
recorded-Untouched env now p prev c db (e ∷ edits) d h = (
  any-append (λ r. same_place r.place e.0 && ltb now r.changed_at) db.history _ h.0 (rw d.0 refl),
  recorded-Untouched env now p prev c db edits d.1 h.1,
)

-- Every row is reverted.
pub revert_rows-all :
    (env env' : Environment) (source : Source) (rows : List BoundaryRow) (edits : List Edit)
    (db : Database) (report : Report)
    → IsApart (affected edits)
    → Untouched env.now db edits
    → Places edits db.boundaries
    → (db' : Database) × (revert_rows env' (map (entry env source rows) edits) db report
        ≡ reversed db' (record report { reverted = report.reverted ++ affected edits }))
      × (db'.boundaries ≡ apply_edits (undo rows edits) db.boundaries)
unfolding revert_rows revert_row write_and_record write_boundary write_history_row apply_edits
revert_rows-all env env' source rows [] db report a h known = (
  db,
  ap (λ l. reversed db (record report { reverted = l })) (sym (append-nil report.reverted)),
  refl,
)
revert_rows-all env env' source rows ((p, c) ∷ edits) db report a h known =
    let prev = restored (or_no_cut (prev_of rows p)) in
    let (n, e) = count_at p db.boundaries known.0 in
    let known' : Places edits (map (set_cut p prev) db.boundaries) =
      subst (λ (ps : List Position). All (λ d. In d.0 ps) edits)
        (sym (places-set_cut p prev db.boundaries)) known.1 in
    let db₁ =
      write_history_row env' env'.new_id p (some c) prev revert (write_boundary (p, prev) db).1 in
    let report₁ = record report { reverted = report.reverted ++ p ∷ [] } in
    let (db', w, applied) =
      revert_rows-all env env' source rows edits db₁ report₁ a.1
        (recorded-Untouched env' env.now p (some c) prev db edits a.0 h.1) known' in
    (
      db',
      rw (revert_rows, h.0, e)
          (w
            ∙ ap (λ l. reversed db' (record report { reverted = l }))
                (append_assoc report.reverted (p ∷ []) (affected edits))),
      applied,
    )
