-- ===== src/Editing/Requests/Steps.antt =====
-- What the transactions of the editors do to the tables: steps that each write a cube that is there and
-- add a row to the history.
use gruvax.Base.{
  ◌&&◌, ◌≡◌, refl, sym, ap, subst, ◌⊎◌, inl, inr, ℕ, zero, suc, true, Option, none, some, List, [],
  ◌∷◌, ◌++◌, is_nil, arith, Bool-cases,
}
use gruvax.Boundaries.{Overrides}
use gruvax.Segments.Assign.{Position}
use gruvax.Editing.{
  IdempotencyRow, Environment, Cut, Edit, Source, manual, revert, HistoryRow, Database, Written,
  aborted, written, write_edits, write_edit, write_boundary, write_history_row, has_newer_changes,
  write_and_record, boundary_not_found, Refusal,
}
use gruvax.Editing.Replace.{write_known}
use gruvax.Editing.Bulk.{
  Batch, failed, violated, done, write_updates, write_one, is_complete, is_allowed, or_bulk,
}
use gruvax.Editing.Revert.{Report, Reversal, abandoned, reversed, revert_row, revert_rows}

pub data IsStep (env : Environment) : Database → Database → Type 0 where
  write :
      (p : Position) (prev : Option Cut) (c : Cut) (source : Source) (db : Database) (n : ℕ)
      → (write_boundary (p, c) db).0 ≡ suc n
      → IsStep env db
          (write_history_row env env.new_id p prev c source (write_boundary (p, c) db).1)
  store :
      (db : Database) (rows : List IdempotencyRow) (overrides : Overrides)
      → IsStep env db (record db { idempotency_keys = rows; overrides = overrides })

pub data IsReached (env : Environment) : Database → Database → Type 0 where
  same : {db : Database} → IsReached env db db
  step : {a b c : Database} → IsStep env a b → IsReached env b c → IsReached env a c

-- The tables that a transaction leaves.
after : Database → Written → Database
after db (aborted r) = db
after db (written db') = db'

pub written-injective : (db db' : Database) → written db ≡ written db' → db ≡ db'
unfolding after
written-injective db db' e = ap (after db) e

-- What a step of a transaction that is not aborted has done.
pub write_and_record-written :
    (env : Environment) (source : Source) (p : Position) (prev : Option Cut) (c : Cut)
    (db db' : Database)
    → write_and_record env source p prev c db ≡ written db'
    → (n : ℕ) × ((write_boundary (p, c) db).0 ≡ suc n)
      × (write_history_row env env.new_id p prev c source (write_boundary (p, c) db).1 ≡ db')
unfolding write_and_record
write_and_record-written env source p prev c db db' h = counted (write_boundary (p, c) db).0 refl h
  where
    counted :
        (n : ℕ)
        → (write_boundary (p, c) db).0 ≡ n
        → elim n [
          | zero ↦ aborted (boundary_not_found p)
          | suc m ↦
              written
                (write_history_row env env.new_id p prev c source (write_boundary (p, c) db).1)
        ]
          ≡ written db'
        → (m : ℕ) × ((write_boundary (p, c) db).0 ≡ suc m)
          × (write_history_row env env.new_id p prev c source (write_boundary (p, c) db).1 ≡ db')
    counted zero e h = ground arith
    counted (suc n) e h = (n, e, written-injective _ _ h)

write_and_record-IsStep :
    (env : Environment) (source : Source) (p : Position) (prev : Option Cut) (c : Cut)
    (db db' : Database)
    → write_and_record env source p prev c db ≡ written db'
    → IsStep env db db'
write_and_record-IsStep env source p prev c db db' h =
    let (n, e, result) = write_and_record-written env source p prev c db db' h in
    subst (IsStep env db) result (write p prev c source db n e)

pub Written-cases :
    (w : Written) → ((r : Refusal) × (w ≡ aborted r)) ⊎ ((db : Database) × (w ≡ written db))
Written-cases (aborted r) = inl (r, refl)
Written-cases (written db) = inr (db, refl)

pub write_edits-IsReached :
    (env : Environment) (source : Source) (edits : List Edit) (db db' : Database)
    → write_edits env source edits db ≡ written db'
    → IsReached env db db'
unfolding write_edits write_edit
write_edits-IsReached env source [] db db' h =
    subst (IsReached env db) (written-injective _ _ h) same
write_edits-IsReached env source (e ∷ edits) db db' h =
    elim (Written-cases (write_edit env source e db)) [
      | inl (r, w) ↦
          let clash : aborted r ≡ written db' = (rw (write_edits, w) at h) in ground (arith, clash)
      | inr (db₁, w) ↦
          step (write_and_record-IsStep env source e.0 _ e.1 db db₁ w)
            (write_edits-IsReached env source edits db₁ db' (rw (write_edits, w) at h))
    ]

pub write_known-IsReached :
    (env : Environment) (p : Position) (c : Cut) (prev : Option Cut) (db db' : Database)
    → write_known env p c prev db ≡ written db'
    → IsReached env db db'
unfolding write_known
write_known-IsReached env p c none db db' h = ground arith
write_known-IsReached env p c (some prev) db db' h =
    step (write_and_record-IsStep env manual p (some prev) c db db' h) same

abbrev pub tables_done : Database → Batch → Database
tables_done db (failed r) = db
tables_done db violated = db
tables_done db (done db') = db'

pub write_updates-IsReached :
    (env : Environment) (source : Option Source) (edits : List Edit) (db db' : Database)
    → write_updates env source edits db ≡ done db'
    → IsReached env db db'
unfolding write_updates write_edit
write_updates-IsReached env source [] db db' h =
    subst (IsReached env db) (ap (tables_done db) h) same
write_updates-IsReached env source (e ∷ edits) db db' h =
    elim (Written-cases (write_edit env (or_bulk source) e db)) [
      | inl (r, w) ↦
          let clash : failed r ≡ done db' = (rw (write_updates, w) at h) in ground (arith, clash)
      | inr (db₁, w) ↦ elim (Bool-cases (is_complete e.1 && is_allowed source)) [
        | inl c ↦
            step (write_and_record-IsStep env (or_bulk source) e.0 _ e.1 db db₁ w)
              (write_updates-IsReached env source edits db₁ db' (rw (write_updates, w, c) at h))
        | inr c ↦
            let clash : violated ≡ done db' = (rw (write_updates, w, c) at h) in
            ground (arith, clash)
      ]
    ]

pub write_one-IsReached :
    (env : Environment) (e : Edit) (prev : Option Cut) (db db' : Database)
    → write_one env e prev db ≡ done db'
    → IsReached env db db'
unfolding write_one
write_one-IsReached env e none db db' h = ground arith
write_one-IsReached env e (some prev) db db' h =
    write_updates-IsReached env (some manual) (e ∷ []) db db' h

pub IsReached-append :
    {env : Environment} {a b c : Database}
    → IsReached env a b
    → IsReached env b c
    → IsReached env a c
IsReached-append same r = r
IsReached-append (step s q) r = step s (IsReached-append q r)

tables_after : Database → Reversal → Database
tables_after db (abandoned r) = db
tables_after db (reversed db' report) = db'

pub revert_rows-IsReached :
    (env : Environment) (rows : List HistoryRow) (db db' : Database) (before after : Report)
    → revert_rows env rows db before ≡ reversed db' after
    → IsReached env db db'
unfolding revert_rows revert_row tables_after
revert_rows-IsReached env [] db db' before after h =
    subst (IsReached env db) (ap (tables_after db) h) same
revert_rows-IsReached env (hist ∷ rows) db db' before after h =
    elim (Bool-cases (has_newer_changes hist.place hist.changed_at db)) [
      | inl e ↦ revert_rows-IsReached env rows db db' _ after (rw (revert_rows, e) at h)
      | inr e ↦ elim (Written-cases (revert_row env hist db)) [
        | inl (r, w) ↦
            let clash : abandoned r ≡ reversed db' after = (rw (revert_rows, e, w) at h) in
            ground (arith, clash)
        | inr (db₁, w) ↦
            step (write_and_record-IsStep env revert _ _ _ db db₁ w)
              (revert_rows-IsReached env rows db₁ db' _ after (rw (revert_rows, e, w) at h))
      ]
    ]

is_nil-append : (places : List Position) (p : Position) → is_nil (places ++ p ∷ []) ≡ true → ⊥
is_nil-append [] p h = ground arith
is_nil-append (q ∷ places) p h = ground arith

-- A revert that reverts no cube leaves the tables alone.
pub revert_rows_idle :
    (env : Environment) (rows : List HistoryRow) (db db' : Database) (before after : Report)
    → revert_rows env rows db before ≡ reversed db' after
    → is_nil after.reverted ≡ true
    → (db' ≡ db) × (is_nil before.reverted ≡ true)
unfolding revert_rows tables_after
revert_rows_idle env [] db db' before after h nil =
    let same_report : before ≡ after = ap report_after h in
    (sym (ap (tables_after db) h), rw same_report nil)
  where
    report_after : Reversal → Report
    report_after (abandoned r) = after
    report_after (reversed db'' report) = report
revert_rows_idle env (hist ∷ rows) db db' before after h nil =
    elim (Bool-cases (has_newer_changes hist.place hist.changed_at db)) [
      | inl e ↦ revert_rows_idle env rows db db' _ after (rw (revert_rows, e) at h) nil
      | inr e ↦ elim (Written-cases (revert_row env hist db)) [
        | inl (r, w) ↦
            let clash : abandoned r ≡ reversed db' after = (rw (revert_rows, e, w) at h) in
            ground (arith, clash)
        | inr (db₁, w) ↦
            let idle =
              revert_rows_idle env rows db₁ db' _ after (rw (revert_rows, e, w) at h) nil in
            absurd (is_nil-append before.reverted hist.place idle.1)
      ]
    ]
