-- ===== src/Editing/Bulk.antt =====
-- `put_cube_boundary` and `bulk_write_cubes` of gruvax/api/admin/cubes.py: edits that may empty a cube,
-- one at a time or many in one transaction.
use gruvax.Base.{
  Bool, true, false, ◌&&◌, ◌||◌, Option, none, some, List, [], ◌∷◌, map, Text, if◌then◌else◌,
  length,
}
use gruvax.Unicode.{Unicode}
use gruvax.Segments.Assign.{Position}
use gruvax.Boundaries.{BoundaryCache}
use gruvax.Editing.{
  Cut, Edit, Environment, Source, bulk, manual, Database, Profile, Outcome, answered, refused,
  raised, Refusal, phantom_boundary, contiguity_error, cube_not_found, aborted, written,
  CachedResponse, bulk_response, fetch_current_boundary, write_edit, announce,
}
use gruvax.Editing.Validation.{by_unit, check_units}
use gruvax.Editing.Replace.{is_phantom, or_empty}
use gruvax.Editing.Idempotency.{check_idempotency, store_idempotency, cleanup_idempotency}

pub record BoundaryEdit : Type 0 where
  pub place : Position
  pub first_label : Option Text
  pub first_catalog : Option Text
  pub is_empty : Bool
  pub force : Bool

-- `s or None`.
abbrev pub or_none : Text → Option Text
or_none [] = none
or_none (c ∷ s) = some (c ∷ s)

-- An empty cube has no cut point.
abbrev pub unless_empty : Bool → Option Text → Option Text
unless_empty true s = none
unless_empty false s = s

unfoldable pub edit_of : BoundaryEdit → Edit
edit_of e = (
  e.place,
  record {
    first_label = unless_empty e.is_empty e.first_label;
    first_catalog = unless_empty e.is_empty e.first_catalog;
    is_empty = e.is_empty;
  },
)

-- The edit that `put_cube_boundary` writes: a text that is empty counts as none.
unfoldable pub written_edit : BoundaryEdit → Edit
unfolding edit_of
written_edit e = edit_of (record e {
  first_label = or_none (or_empty e.first_label);
  first_catalog = or_none (or_empty e.first_catalog);
})

abbrev is_some : Option Text → Bool
is_some none = false
is_some (some s) = true

-- The constraint cut_point_complete of cube_boundaries.
abbrev pub is_complete : Cut → Bool
is_complete c = c.is_empty || is_some c.first_label && is_some c.first_catalog

-- The constraint on boundary_history.source: `none` is a text that it does not allow.
abbrev pub is_allowed : Option Source → Bool
is_allowed none = false
is_allowed (some source) = true

abbrev pub or_bulk : Option Source → Source
or_bulk none = bulk
or_bulk (some source) = source

-- What a transaction comes to in which a constraint may be violated.
pub data Batch : Type 0 where
  failed : Refusal → Batch
  violated : Batch
  done : Database → Batch

-- The loop of the transaction. An UPDATE that meets no row violates nothing.
unfoldable pub write_updates : Environment → Option Source → List Edit → Database → Batch
write_updates env source [] db = done db
write_updates env source (e ∷ edits) db = elim (write_edit env (or_bulk source) e db) [
  | aborted r ↦ failed r
  | written db' ↦ elim (is_complete e.1 && is_allowed source) [
    | true ↦ write_updates env source edits db'
    | false ↦ violated
  ]
]

-- The transaction of one cube, which is looked up first.
unfoldable pub write_one : Environment → Edit → Option Cut → Database → Batch
write_one env e none db = failed (cube_not_found e.0)
write_one env e (some prev) db = write_updates env (some manual) (e ∷ []) db

abbrev pub response_of : Environment → List BoundaryEdit → CachedResponse
response_of env updates = bulk_response env.new_id (length updates)

module _ (u : Unicode) where
  -- `_check_contiguity_for_writes`.
  unfoldable pub check_contiguity_for_writes : List BoundaryEdit → BoundaryCache → Option Text
  check_contiguity_for_writes edits cache = check_units u cache (by_unit [] (map edit_of edits))

  -- `not is_empty and not force and not cube_exact_match(...)`.
  unfoldable pub is_phantom_edit : BoundaryEdit → Database → Bool
  is_phantom_edit e db =
      is_phantom u (e.is_empty || e.force) (or_empty e.first_label) (or_empty e.first_catalog) db

  -- The loop that returns at the first phantom.
  unfoldable pub has_phantom : List BoundaryEdit → Database → Bool
  has_phantom [] db = false
  has_phantom (e ∷ edits) db =
      let rest = has_phantom edits db in if is_phantom_edit e db then true else rest

  -- What follows the transaction of one cube.
  unfoldable pub after_one : Environment → Position → Profile → Batch → Outcome Position × Profile
  after_one env p s (failed r) = (refused r, s)
  after_one env p s violated = (raised, s)
  after_one env p s (done db) =
      announce u env (p ∷ [], some env.new_id) p (record s { database = db })

  unfoldable pub put_checked :
      Environment → BoundaryEdit → Profile → Option Text → Outcome Position × Profile
  put_checked env e s (some label) = (refused (contiguity_error label), s)
  put_checked env e s none =
      after_one env e.place s
        (write_one env (written_edit e) (fetch_current_boundary e.place s.database) s.database)

  unfoldable pub put_cube_boundary :
      Environment → BoundaryEdit → Profile → Outcome Position × Profile
  put_cube_boundary env e s =
      if is_phantom_edit e s.database
      then (refused phantom_boundary, s)
      else put_checked env e s (check_contiguity_for_writes (e ∷ []) s.boundary_cache)

  -- What follows the loop: the key is stored in the same transaction.
  unfoldable pub after_bulk :
      Environment
      → Option Text
      → List BoundaryEdit
      → Profile
      → Batch
      → Outcome CachedResponse × Profile
  after_bulk env key updates s (failed r) = (refused r, s)
  after_bulk env key updates s violated = (raised, s)
  after_bulk env key updates s (done db) =
      let db' = cleanup_idempotency env (store_idempotency env key (response_of env updates) db) in
      announce u env (map (λ e. e.place) updates, some env.new_id) (response_of env updates)
        (record s { database = db' })

  unfoldable pub bulk_checked :
      Environment
      → Option Text
      → Option Source
      → List BoundaryEdit
      → Profile
      → Option Text
      → Outcome CachedResponse × Profile
  bulk_checked env key source updates s (some label) = (refused (contiguity_error label), s)
  bulk_checked env key source updates s none =
      after_bulk env key updates s (write_updates env source (map edit_of updates) s.database)

  -- A request whose key is not known.
  unfoldable pub write_bulk :
      Environment
      → Option Text
      → Option Source
      → List BoundaryEdit
      → Profile
      → Outcome CachedResponse × Profile
  write_bulk env key source updates s =
      if has_phantom updates s.database
      then (refused phantom_boundary, s)
      else bulk_checked env key source updates s
          (check_contiguity_for_writes updates s.boundary_cache)

  -- A known key answers at once.
  unfoldable pub unless_cached :
      Environment
      → Option Text
      → Option Source
      → List BoundaryEdit
      → Profile
      → Option CachedResponse
      → Outcome CachedResponse × Profile
  unless_cached env key source updates s (some response) = (answered response, s)
  unless_cached env key source updates s none = write_bulk env key source updates s

  unfoldable pub bulk_write_cubes :
      Environment
      → Option Text
      → Option Source
      → List BoundaryEdit
      → Profile
      → Outcome CachedResponse × Profile
  bulk_write_cubes env key source updates s =
      unless_cached env key source updates s (check_idempotency key s.database)
