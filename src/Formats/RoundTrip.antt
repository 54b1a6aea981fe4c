-- ===== src/Formats/RoundTrip.antt =====
-- A document that `serialize_boundaries_yaml` makes is read back.
use gruvax.Base.{
  ℕ, ◌≡◌, refl, ◌∙◌, Bool, true, false, leb, Option, none, some, List, [], ◌∷◌, Text, map, All,
  All-In, All-at, ap, is_nil, arith, ◌>>=◌,
}
use gruvax.Base.Order.{nat_order, list_order, pair_order}
use gruvax.Base.Sort.{sort_by, In-sort_by}
use gruvax.Base.Ratio.{Ratio}
use gruvax.Unicode.{Unicode}
use gruvax.Normalize.{strip}
use gruvax.Formats.{
  Numbers, CutPointEntry, in_range, get_or, optional_text, text_or_null, parse_fields,
  override_fields, parse_overrides, parse_cube, parse_cubes, address_value, int_value, float_value,
  sorted_entries, sorted_overrides, place_of, serialize_cube, serialize_cubes,
  parse_yaml_boundaries, serialize_boundaries_yaml,
}

-- What is left of an entry: an empty cube has no cut point and no overrides.
abbrev stored_as : Bool → CutPointEntry → CutPointEntry
stored_as true e = record e { first_label = none; first_catalog = none; overrides = [] }
stored_as false e = record e { overrides = sorted_overrides e.overrides }

abbrev pub stored : CutPointEntry → CutPointEntry
stored e = stored_as e.is_empty e

module _ (u : Unicode) (numbers : Numbers) where
  abbrev pub IsOverride : Text × Ratio → Type 0
  IsOverride o = (is_nil (strip u o.0) ≡ false) × (in_range o.1 ≡ true)

  abbrev pub IsEntry : CutPointEntry → Type 0
  IsEntry e = (leb 1 e.unit_id ≡ true) × All IsOverride e.overrides

  parse-override_fields :
      (overrides : List (Text × Ratio))
      → All IsOverride overrides
      → parse_fields u numbers (override_fields overrides) ≡ some overrides
  unfolding parse_fields override_fields float_value
  parse-override_fields [] h = refl
  parse-override_fields (o ∷ overrides) h =
      rw (h.0.0, h.0.1, parse-override_fields overrides h.1) refl

  sorted-IsOverride :
      (overrides : List (Text × Ratio))
      → All IsOverride overrides
      → All IsOverride (sorted_overrides overrides)
  sorted-IsOverride overrides h = All-In _ (λ o m.
      All-at IsOverride o overrides h (In-sort_by (list_order nat_order) (λ o. o.0) o overrides m))

  optional-text_or_null : (t : Option Text) → optional_text (text_or_null t) ≡ some t
  unfolding optional_text
  optional-text_or_null none = refl
  optional-text_or_null (some t) = refl

  leb_zero : (n : ℕ) → leb 0 n ≡ true
  leb_zero n = ground arith

  cube-stored :
      (unit_id row col : ℕ) (label catalog : Option Text) (is_empty : Bool)
      (overrides : List (Text × Ratio))
      → leb 1 unit_id ≡ true
      → All IsOverride overrides
      → (let e : CutPointEntry = record {
        unit_id = unit_id;
        row = row;
        col = col;
        first_label = label;
        first_catalog = catalog;
        is_empty = is_empty;
        overrides = overrides;
      } in
          parse_cube u numbers (serialize_cube e) ≡ some (stored_as is_empty e))
  unfolding parse_cube serialize_cube get_or address_value int_value parse_overrides optional_text
      parse_fields sort_by
  cube-stored unit_id row col label catalog true overrides h k =
      rw (h, leb_zero row, leb_zero col) refl
  cube-stored unit_id row col label catalog false [] h k =
      rw (h, leb_zero row, leb_zero col, optional-text_or_null label, optional-text_or_null catalog)
        refl
  cube-stored unit_id row col label catalog false (o ∷ overrides) h k =
      rw
        (
          h,
          leb_zero row,
          leb_zero col,
          optional-text_or_null label,
          optional-text_or_null catalog,
          parse-override_fields _ (sorted-IsOverride (o ∷ overrides) k),
        )
        refl

  cubes-stored :
      (entries : List CutPointEntry)
      → All IsEntry entries
      → parse_cubes u numbers (serialize_cubes entries) ≡ some (map stored entries)
  unfolding parse_cubes serialize_cubes
  cubes-stored [] h = refl
  cubes-stored (e ∷ entries) h =
      ap
        (λ p.
          p >>= (λ x. parse_cubes u numbers (serialize_cubes entries) >>= (λ xs. some (x ∷ xs))))
        (cube-stored e.unit_id e.row e.col e.first_label e.first_catalog e.is_empty e.overrides
          h.0.0 h.0.1)
      ∙ ap (λ p. p >>= (λ xs. some (stored e ∷ xs))) (cubes-stored entries h.1)

  -- When every unit is one or more, and every override has a label that is not blank and a fraction above
  -- zero and at most one, the document of the entries is read as the entries sorted by place, each with its
  -- overrides sorted by label, but for empty cubes, which come back without cut point and overrides.
  pub parse-serialize_boundaries_yaml :
      (entries : List CutPointEntry)
      → All IsEntry entries
      → parse_yaml_boundaries u numbers (serialize_boundaries_yaml entries)
        ≡ some (map stored (sorted_entries entries))
  unfolding parse_yaml_boundaries serialize_boundaries_yaml get_or
  parse-serialize_boundaries_yaml entries h = cubes-stored (sorted_entries entries) (
      All-In _ (λ e m.
        All-at IsEntry e entries h (
          In-sort_by (pair_order nat_order (pair_order nat_order nat_order)) place_of e entries m)))
