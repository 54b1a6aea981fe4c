-- ===== src/Editing.antt =====
-- What the editors of cut points share: the tables and statements of gruvax/db/queries.py that they
-- run in a transaction, and gruvax/api/admin/cache_rebuild.py. The tables are those of one profile.
pub mod Apart
pub mod Validation
pub mod Insert
pub mod Replace
pub mod Idempotency
pub mod Bulk
pub mod Widths
pub mod Preview
pub mod Suggest
pub mod Revert
pub mod Requests
use gruvax.Base.{
  ℕ, zero, suc, ◌≡◌, ◌==◌, arith, ◌+◌, Bool, true, false, ◌&&◌, ltb, Option, none, some, List, [],
  ◌∷◌, ◌++◌, map, Text, text_eq, if◌then◌else◌, length, any, keep,
}
use gruvax.Base.Order.{Order, nat_order, pair_order, list_order}
use gruvax.Base.Sort.{sort_by}
use gruvax.Base.Ratio.{Ratio}
use gruvax.Base.Dict.{KeyTest}
use gruvax.Unicode.{Unicode}
use gruvax.Snapshot.{CollectionSnapshot}
use gruvax.Boundaries.{BoundaryRow, BoundaryCache, Overrides, OverrideKey, load}
use gruvax.Segments.Assign.{Position, position, position_order, shelf_order}
use gruvax.Segments.Derive.{SegmentCache, derive}

-- The columns of a cube that an edit sets.
pub record Cut : Type 0 where
  pub first_label : Option Text
  pub first_catalog : Option Text
  pub is_empty : Bool

-- (unit_id, row, col, first_label, first_catalog, is_empty).
abbrev pub Edit : Type 0
Edit = Position × Cut

abbrev pub cut_of : BoundaryRow → Cut
cut_of r = record {
  first_label = r.first_label;
  first_catalog = r.first_catalog;
  is_empty = r.is_empty;
}

abbrev pub with_cut : Cut → BoundaryRow → BoundaryRow
with_cut c r = record r {
  first_label = c.first_label;
  first_catalog = c.first_catalog;
  is_empty = c.is_empty;
}

-- `unit_id = %s AND row = %s AND col = %s`.
abbrev pub same_place : Position → Position → Bool
same_place (u, (r, c)) (u', (r', c')) = u == u' && r == r' && c == c'

pub same_place_refl : (p : Position) → same_place p p ≡ true
same_place_refl (u, (r, c)) = ground arith

pub same_place_sound : (p q : Position) → same_place p q ≡ true → p ≡ q
same_place_sound (u, (r, c)) (u', (r', c')) h = ground arith

abbrev pub place_key : KeyTest Position
place_key = record { same = same_place; same_refl = same_place_refl; same_sound = same_place_sound }

abbrev pub is_at : Position → BoundaryRow → Bool
is_at p r = same_place p (position r)

pub data Source : Type 0 where
  manual : Source
  bulk : Source
  revert : Source
  cut_insert : Source
  wizard : Source
  reshuffle : Source
  csv : Source
  yaml : Source

-- A row of boundary_history.
pub record HistoryRow : Type 0 where
  pub change_set_id : Text
  pub place : Position
  pub prev : Cut
  pub new : Cut
  pub changed_at : ℕ
  pub source : Source

-- A response that an idempotency key stands for: that of a bulk edit, or of `set_bin_overrides`.
pub data CachedResponse : Type 0 where
  bulk_response : Text → ℕ → CachedResponse
  overrides_response : Position → ℕ → ℕ → CachedResponse

-- A row of idempotency_keys.
pub record IdempotencyRow : Type 0 where
  pub key : Text
  pub response : CachedResponse
  pub created_at : ℕ

-- The tables cube_boundaries, segment_overrides, boundary_history, in the order of its id, the labels
-- and catalog numbers of profile_collection, and idempotency_keys.
pub record Database : Type 0 where
  pub boundaries : List BoundaryRow
  pub overrides : Overrides
  pub history : List HistoryRow
  pub collection : List (Option Text × Option Text)
  pub idempotency_keys : List IdempotencyRow

-- `rows[0]` of a SELECT, if any.
abbrev pub first_of {ℓ} : {A : Type ℓ} → List A → Option A
first_of [] = none
first_of (x ∷ xs) = some x

unfoldable pub fetch_current_boundary : Position → Database → Option Cut
fetch_current_boundary p db = first_of (map cut_of (keep (is_at p) db.boundaries))

abbrev pub set_cut : Position → Cut → BoundaryRow → BoundaryRow
set_cut p c r = if is_at p r then with_cut c r else r

-- The UPDATE: the number of rows that it met, and the table.
unfoldable pub write_boundary : Edit → Database → ℕ × Database
write_boundary (p, c) db = (
  length (keep (is_at p) db.boundaries),
  record db { boundaries = map (set_cut p c) db.boundaries },
)

-- `prev_*` of a cube without a boundary row: NULL, NULL and TRUE.
abbrev pub no_cut : Cut
no_cut = record { first_label = none; first_catalog = none; is_empty = true }

abbrev pub or_no_cut : Option Cut → Cut
or_no_cut none = no_cut
or_no_cut (some c) = c

-- What a request finds outside: the time of its transaction, the value of `uuid4`, and whether the
-- SELECTs that follow the commit return.
pub record Environment : Type 0 where
  pub now : ℕ
  pub new_id : Text
  pub reads : Bool

-- `changed_at` is the time of the transaction.
unfoldable pub write_history_row :
    Environment → Text → Position → Option Cut → Cut → Source → Database → Database
write_history_row env id p prev new source db = record db {
  history =
      db.history
      ++ record {
        change_set_id = id;
        place = p;
        prev = or_no_cut prev;
        new = new;
        changed_at = env.now;
        source = source;
      }
        ∷ [];
}

unfoldable pub fetch_change_set_rows : Text → Database → List HistoryRow
fetch_change_set_rows id db = keep (λ h. text_eq h.change_set_id id) db.history

unfoldable pub has_newer_changes : Position → ℕ → Database → Bool
has_newer_changes p original_changed_at db =
    any (λ h. same_place h.place p && ltb original_changed_at h.changed_at) db.history

pub data Refusal : Type 0 where
  phantom_boundary : Refusal
  no_cubes : Refusal
  cube_not_found : Position → Refusal
  shelf_overflow : Refusal
  empty_bin : Refusal
  contiguity_error : Text → Refusal
  boundary_not_found : Position → Refusal
  change_set_not_found : Refusal
  bin_not_found : Position → Refusal
  phantom_override : List Text → Refusal
  override_sum_invalid : Ratio → Refusal

-- The writes of a transaction: a raise inside it aborts the whole.
pub data Written : Type 0 where
  aborted : Refusal → Written
  written : Database → Written

-- One cube of a transaction: `write_boundary`, a 404 if it met no row, and `write_history_row`.
unfoldable pub write_and_record :
    Environment → Source → Position → Option Cut → Cut → Database → Written
write_and_record env source p prev c db =
    let (rows_affected, db') = write_boundary (p, c) db in
    elim rows_affected [
      | zero ↦ aborted (boundary_not_found p)
      | suc n ↦ written (write_history_row env env.new_id p prev c source db')
    ]

-- One round of the loop of `insert_cut`: the old cut is read first.
unfoldable pub write_edit : Environment → Source → Edit → Database → Written
write_edit env source (p, c) db = write_and_record env source p (fetch_current_boundary p db) c db

unfoldable pub write_edits : Environment → Source → List Edit → Database → Written
write_edits env source [] db = written db
write_edits env source (e ∷ edits) db = elim (write_edit env source e db) [
  | aborted r ↦ aborted r
  | written db' ↦ write_edits env source edits db'
]

-- A boundary_changed event: the cubes, and the change set if the edit has one.
abbrev pub BoundaryChanged : Type 0
BoundaryChanged = List Position × Option Text

-- A profile: its tables, the caches of its write context, and the events published, oldest first.
pub record Profile : Type 0 where
  pub database : Database
  pub boundary_cache : BoundaryCache
  pub segment_cache : SegmentCache
  pub snapshot : CollectionSnapshot
  pub published : List BoundaryChanged

-- The second ORDER BY of `load`.
abbrev override_place : OverrideKey × Ratio → Position × Text
override_place ((u, r, c, label), fraction) = ((u, (r, c)), label)

abbrev override_order : Order (Position × Text)
override_order = pair_order position_order (list_order nat_order)

-- The answers of the SELECTs of `load`.
unfoldable pub select_boundaries : Environment → Database → Option (List BoundaryRow)
select_boundaries env db = if env.reads then some (shelf_order db.boundaries) else none

unfoldable pub select_overrides : Environment → Database → Option Overrides
select_overrides env db =
    if env.reads then some (sort_by override_order override_place db.overrides) else none

-- What a request ends in: an answer, a 4xx answer, or an exception that leaves the handler.
pub data Outcome : Type 0 → Type 1 where
  answered : {A : Type 0} → A → Outcome A
  refused : {A : Type 0} → Refusal → Outcome A
  raised : {A : Type 0} → Outcome A

module _ (u : Unicode) where
  -- The profile, and whether the call returned.
  unfoldable pub rebuild_derived_caches : Environment → Profile → Profile × Bool
  rebuild_derived_caches env s =
      let (boundaries, loaded) =
        load (select_boundaries env s.database) (select_overrides env s.database)
          s.boundary_cache in
      let (segments, derived) =
        derive u boundaries s.snapshot boundaries.overrides s.segment_cache in
      if loaded
      then (record s { boundary_cache = boundaries; segment_cache = segments }, derived)
      else (s, false)

  -- `try: rebuild ... finally: publish`, and the answer where nothing was raised.
  unfoldable pub announce :
      {A : Type 0} → Environment → BoundaryChanged → A → Profile → Outcome A × Profile
  announce env event answer s =
      let (s', returned) = rebuild_derived_caches env s in
      (
        if returned then answered answer else raised,
        record s' { published = s'.published ++ event ∷ [] },
      )
