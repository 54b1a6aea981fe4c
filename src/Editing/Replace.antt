-- ===== src/Editing/Replace.antt =====
-- `put_bin_cut` of gruvax/api/admin/segments.py, and `cube_exact_match` of gruvax/db/queries.py, which
-- both editors of one cut ask for phantom cuts.
use gruvax.Base.{
  Bool, true, false, ◌&&◌, Option, none, some, [], ◌∷◌, Text, text_eq, any, if◌then◌else◌,
}
use gruvax.Unicode.{Unicode}
use gruvax.Normalize.{parse_key, strip}
use gruvax.Normalize.Key.{CatalogKey}
use gruvax.Segments.Assign.{Position}
use gruvax.Editing.{
  Cut, Environment, Database, Profile, Outcome, refused, phantom_boundary, contiguity_error,
  cube_not_found, written, aborted, manual, Written, fetch_current_boundary, write_and_record,
  announce,
}
use gruvax.Editing.Validation.{new_cut, same_catalog, build_proposed_cuts, validate_contiguity}

pub record CutEditBody : Type 0 where
  pub first_label : Text
  pub first_catalog : Text
  pub force : Bool

-- `label or ""`.
abbrev pub or_empty : Option Text → Text
or_empty none = []
or_empty (some label) = label

-- The transaction: `prev is None` is a 404 of its own.
unfoldable pub write_known : Environment → Position → Cut → Option Cut → Database → Written
write_known env p c none db = aborted (cube_not_found p)
write_known env p c (some prev) db = write_and_record env manual p (some prev) c db

module _ (u : Unicode) where
  -- `_boundary_identity`.
  abbrev pub boundary_identity : Option Text → Option Text → Text × CatalogKey
  boundary_identity label catalog = (u.casefold (or_empty label), parse_key u catalog)

  abbrev pub same_identity : Text × CatalogKey → Text × CatalogKey → Bool
  same_identity (label, key) (label', key') = text_eq label label' && same_catalog key key'

  unfoldable pub cube_exact_match : Text → Text → Database → Bool
  cube_exact_match label catalog db =
      let wanted = boundary_identity (some label) (some catalog) in
      any (λ row. same_identity (boundary_identity row.0 row.1) wanted) db.collection

  -- `not force and not cube_exact_match(...)`.
  unfoldable pub is_phantom : Bool → Text → Text → Database → Bool
  is_phantom true label catalog db = false
  is_phantom false label catalog db = if cube_exact_match label catalog db then false else true

  -- What follows the transaction.
  unfoldable pub after_write :
      Environment → Position → Profile → Written → Outcome Position × Profile
  after_write env p s (aborted r) = (refused r, s)
  after_write env p s (written db) =
      announce u env (p ∷ [], some env.new_id) p (record s { database = db })

  -- What follows the contiguity check.
  unfoldable pub write_checked :
      Environment → Position → Cut → Profile → Option Text → Outcome Position × Profile
  write_checked env p c s (some label) = (refused (contiguity_error label), s)
  write_checked env p c s none =
      after_write env p s (write_known env p c (fetch_current_boundary p s.database) s.database)

  unfoldable pub put_bin_cut :
      Environment → Position → CutEditBody → Profile → Outcome Position × Profile
  put_bin_cut env p body s =
      let first_label = strip u body.first_label in
      let first_catalog = strip u body.first_catalog in
      let proposed =
        build_proposed_cuts s.boundary_cache (some (p, (first_label, first_catalog))) none in
      if is_phantom body.force first_label first_catalog s.database
      then (refused phantom_boundary, s)
      else write_checked env p (new_cut first_label first_catalog) s
          (validate_contiguity u proposed)
