-- ===== src/Editing/Validation.antt =====
-- gruvax/api/admin/validation.py: the checks that an edit of cut points passes before it is written.
-- A proposed update is a dict with the fields of a boundary row.
pub mod Occurrences
pub mod Contiguity
use gruvax.Base.{
  ℕ, zero, suc, ◌-◌, Bool, true, false, not, ◌&&◌, ◌==◌, leb, Option, none, some, List, [], ◌∷◌,
  ◌++◌, map, Text, text_eq, text_eq_refl, text_eq_sound, if◌then◌else◌, length, any, keep, drop,
  find_index, is_nil,
}
use gruvax.Base.Order.{nat_order, list_order, lt}
use gruvax.Base.Dict.{KeyTest, get, put}
use gruvax.Unicode.{Unicode}
use gruvax.Normalize.{parse_key}
use gruvax.Normalize.Key.{CatalogKey, catalog_order}
use gruvax.Boundaries.{BoundaryRow, BoundaryCache}
use gruvax.Segments.Assign.{Position, position, shelf_order}
use gruvax.Segments.Bins.{SegmentBin}
use gruvax.Segments.Derive.{SegmentCache, get_bin}
use gruvax.Editing.{Cut, Edit, with_cut, is_at, place_key}

abbrev pub text_key : KeyTest Text
text_key = record { same = text_eq; same_refl = text_eq_refl; same_sound = text_eq_sound }

-- (unit_id, row, col, first_label, first_catalog).
abbrev pub Replacement : Type 0
Replacement = Position × (Text × Text)

abbrev pub new_cut : Text → Text → Cut
new_cut label catalog = record {
  first_label = some label;
  first_catalog = some catalog;
  is_empty = false;
}

unfoldable pub target_unit : Option Replacement → Option (List Edit) → Option ℕ
target_unit (some (p, cut)) cascade = some p.0
target_unit none (some ((p, cut) ∷ edits)) = some p.0
target_unit none (some []) = none
target_unit none none = none

abbrev pub in_unit : Option ℕ → BoundaryRow → Bool
in_unit none b = true
in_unit (some unit_id) b = b.unit_id == unit_id

-- The loop that breaks at the first entry of the cube.
unfoldable pub replace_entry : Option Replacement → List BoundaryRow → List BoundaryRow
replace_entry none entries = entries
replace_entry (some r) [] = []
replace_entry (some (p, (label, catalog))) (entry ∷ entries) =
    let rest = replace_entry (some (p, (label, catalog))) entries in
    if is_at p entry then with_cut (new_cut label catalog) entry ∷ entries else entry ∷ rest

-- `cascade_lookup`: the last edit of a cube counts.
unfoldable pub cascade_lookup : List (Position × Cut) → List Edit → List (Position × Cut)
cascade_lookup d [] = d
cascade_lookup d ((p, c) ∷ edits) = cascade_lookup (put place_key p c d) edits

abbrev or_entry : BoundaryRow → Option Cut → BoundaryRow
or_entry entry none = entry
or_entry entry (some c) = with_cut c entry

unfoldable pub apply_cascade : Option (List Edit) → List BoundaryRow → List BoundaryRow
apply_cascade none entries = entries
apply_cascade (some edits) entries =
    map (λ entry. or_entry entry (get place_key (position entry) (cascade_lookup [] edits))) entries

unfoldable pub build_proposed_cuts :
    BoundaryCache → Option Replacement → Option (List Edit) → List BoundaryRow
build_proposed_cuts cache replace cascade =
    apply_cascade cascade
      (replace_entry replace (keep (in_unit (target_unit replace cascade)) cache.rows))

-- The labels that `u.get("first_label")` is true for.
abbrev start_label : Option Text → List Text → List Text
start_label none rest = rest
start_label (some []) rest = rest
start_label (some (c ∷ s)) rest = (c ∷ s) ∷ rest

unfoldable pub start_labels : List BoundaryRow → List Text
start_labels [] = []
start_labels (r ∷ rows) = start_label r.first_label (start_labels rows)

-- `label_sequence`.
unfoldable pub label_sequence : List BoundaryRow → List Text
label_sequence updates = start_labels (shelf_order (keep (λ r. not r.is_empty) updates))

-- An entry of `label_display` and of `label_start_positions`, which have the same keys.
abbrev pub Starts : Type 0
Starts = Text × List ℕ

abbrev add_position : Text → ℕ → Option Starts → Starts
add_position label i none = (label, i ∷ [])
add_position label i (some (display, positions)) = (display, positions ++ i ∷ [])

-- `pos in expected_positions`.
abbrev pub member : ℕ → List ℕ → Bool
member pos = any (λ i. i == pos)

-- The last element of `first ∷ rest`.
abbrev pub last_of : ℕ → List ℕ → ℕ
last_of first [] = first
last_of first (i ∷ rest) = last_of i rest

-- Whether one of the `n` numbers from `pos` is missing.
unfoldable pub has_gap : List ℕ → ℕ → ℕ → Bool
has_gap positions pos zero = false
has_gap positions pos (suc n) =
    let rest = has_gap positions (suc pos) n in if member pos positions then rest else true

unfoldable pub is_scattered : List ℕ → Bool
is_scattered [] = false
is_scattered (min_pos ∷ []) = false
is_scattered (min_pos ∷ (i ∷ rest)) =
    has_gap (min_pos ∷ (i ∷ rest)) min_pos (suc (last_of i rest) - min_pos)

-- The display label of the first label that is scattered.
unfoldable pub first_scattered : List (Text × Starts) → Option Text
first_scattered [] = none
first_scattered ((lk, (display, positions)) ∷ d) =
    let rest = first_scattered d in if is_scattered positions then some display else rest

-- `by_unit.setdefault(unit_id, []).append(edit)`.
unfoldable pub append_edit : ℕ → Edit → List (ℕ × List Edit) → List (ℕ × List Edit)
append_edit unit_id edit [] = (unit_id, edit ∷ []) ∷ []
append_edit unit_id edit ((j, group) ∷ d) =
    let rest = append_edit unit_id edit d in
    if j == unit_id then (j, group ++ edit ∷ []) ∷ d else (j, group) ∷ rest

-- `by_unit`.
unfoldable pub by_unit : List (ℕ × List Edit) → List Edit → List (ℕ × List Edit)
by_unit d [] = d
by_unit d (edit ∷ edits) = by_unit (append_edit edit.0.0 edit d) edits

-- `==` of two keys.
abbrev pub same_catalog : CatalogKey → CatalogKey → Bool
same_catalog j k = catalog_order.le j k && catalog_order.le k j

module _ (u : Unicode) where
  open u use {casefold}

  -- The loop over the labels, numbered from `i`.
  unfoldable pub label_starts : ℕ → List (Text × Starts) → List Text → List (Text × Starts)
  label_starts i d [] = d
  label_starts i d (label ∷ labels) =
      let lk = casefold label in
      label_starts (suc i) (put text_key lk (add_position label i (get text_key lk d)) d) labels

  -- The error is given as the label that its message names.
  unfoldable pub validate_contiguity : List BoundaryRow → Option Text
  validate_contiguity updates = first_scattered (label_starts 0 [] (label_sequence updates))

  unfoldable pub validate_boundary_order : Text → Text → Text → Text → Bool
  validate_boundary_order first_label first_catalog last_label last_catalog =
      let first_cf = casefold first_label in
      let last_cf = casefold last_label in
      if lt (list_order nat_order) first_cf last_cf
      then true
      else if lt (list_order nat_order) last_cf first_cf
      then false
      else catalog_order.le (parse_key u (some first_catalog)) (parse_key u (some last_catalog))

  unfoldable pub check_units : BoundaryCache → List (ℕ × List Edit) → Option Text
  check_units cache [] = none
  check_units cache ((unit_id, edits) ∷ d) =
      let rest = check_units cache d in
      elim (validate_contiguity (build_proposed_cuts cache none (some edits))) [
        | none ↦ rest
        | some error ↦ some error
      ]

  unfoldable pub validate_cascade_contiguity : BoundaryCache → List Edit → Option Text
  validate_cascade_contiguity cache cascade = check_units cache (by_unit [] cascade)

  cuts_match : Option Text → Option Text → Text → Text → Bool
  cuts_match (some label) (some catalog) new_label new_catalog =
      text_eq (casefold label) (casefold new_label)
      && same_catalog (parse_key u (some catalog)) (parse_key u (some new_catalog))
  cuts_match _ _ new_label new_catalog = false

  -- Whether there is an error.
  unfoldable pub validate_no_empty_bin : Text → Text → SegmentCache → Position → Bool
  unfolding cuts_match
  validate_no_empty_bin label catalog cache (unit_id, (row, col)) =
      elim (get_bin cache unit_id row col) [
        | none ↦ false
        | some b ↦ cuts_match b.cut_label b.cut_catalog label catalog
      ]

-- `boundaries[insert_idx + 1:]` has no empty cube.
abbrev pub no_free_cube : List BoundaryRow → Bool
no_free_cube rows = not (any (λ b. b.is_empty) rows)

unfoldable pub overflow_after : List BoundaryRow → Option ℕ → Bool
overflow_after boundaries none = false
overflow_after boundaries (some i) = no_free_cube (drop (suc i) boundaries)

-- No cube to insert after is a head insert.
unfoldable pub overflows : Option Position → List BoundaryRow → Bool
unfolding overflow_after
overflows none boundaries = no_free_cube boundaries
overflows (some after) boundaries = overflow_after boundaries (find_index (is_at after) boundaries)

-- Whether there is an error.
unfoldable pub validate_shelf_overflow : BoundaryCache → Option Position → Bool
validate_shelf_overflow cache after = overflows after (shelf_order cache.rows)
