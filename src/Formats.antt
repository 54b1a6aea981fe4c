-- ===== src/Formats.antt =====
-- gruvax/io/boundary_yaml.py: cut points of cubes as a document. A document is the value between the code
-- and the library: what yaml.safe_load returns and what yaml.dump is called with. An error is `none`.
pub mod RoundTrip
pub mod Csv
use gruvax.Base.{
  ℕ, Bool, true, false, not, ◌&&◌, leb, Option, none, some, List, [], ◌∷◌, Text, text_eq, codes,
  if◌then◌else◌, is_nil, ◌>>=◌,
}
use gruvax.Base.Order.{nat_order, list_order, pair_order}
use gruvax.Base.Sort.{sort_by}
use gruvax.Base.Ratio.{Ratio, zero_r, one, lt}
use gruvax.Unicode.{Unicode}
use gruvax.Normalize.{strip}

-- `other` stands for a value of another kind, and for a number that is negative or not finite. The keys of
-- a mapping are distinct.
mutual
  pub data Value : Type 0 where
    null : Value
    boolean : Bool → Value
    integer : ℕ → Value
    fraction : Ratio → Value
    text : Text → Value
    sequence : Values → Value
    mapping : Fields → Value
    other : Value

  pub data Values : Type 0 where
    nil : Values
    cons : Value → Values → Values

  pub data Fields : Type 0 where
    no_field : Fields
    field : Value → Value → Fields → Fields

pub record CutPointEntry : Type 0 where
  pub unit_id : ℕ
  pub row : ℕ
  pub col : ℕ
  pub first_label : Option Text
  pub first_catalog : Option Text
  pub is_empty : Bool
  pub overrides : List (Text × Ratio)

-- `int` and `float` at a text and `int` at a float: `none` is an error, or a number that is negative.
pub record Numbers : Type 0 where
  pub int_of_text : Text → Option ℕ
  pub int_of_fraction : Ratio → Option ℕ
  pub float_of_text : Text → Option Ratio
  pub float_of_int : ℕ → Ratio

abbrev is_key : Text → Value → Bool
is_key key (text t) = text_eq t key
is_key key _ = false

-- `cube.get(key, default)`.
unfoldable pub get_or : Value → Text → Fields → Value
get_or default key no_field = default
get_or default key (field k v fields) =
    let rest = get_or default key fields in if is_key key k then v else rest

abbrev at_least : ℕ → Option ℕ → Option ℕ
at_least minimum none = none
at_least minimum (some n) = if leb minimum n then some n else none

-- A label of the overrides that is a text, if it is not blank.
abbrev label_text : Unicode → Value → Option Text
label_text u (text t) = if is_nil (strip u t) then none else some t
label_text u _ = none

-- A fraction above zero, and at most one.
abbrev pub in_range : Ratio → Bool
in_range q = lt zero_r q && not (lt one q)

abbrev checked_fraction : Option Ratio → Option Ratio
checked_fraction none = none
checked_fraction (some q) = if in_range q then some q else none

-- `value if isinstance(value, str)`, or None.
unfoldable pub optional_text : Value → Option (Option Text)
optional_text null = some none
optional_text (text t) = some (some t)
optional_text _ = none

abbrev boolean_value : Value → Option Bool
boolean_value (boolean b) = some b
boolean_value _ = none

module _ (u : Unicode) (numbers : Numbers) where
  -- `int(value)`, for a float that is an integer.
  unfoldable pub int_value : Value → Option ℕ
  int_value (integer n) = some n
  int_value (fraction q) = numbers.int_of_fraction q
  int_value (text t) = numbers.int_of_text t
  int_value _ = none

  -- `minimum` is one for a unit and zero for a row and a column.
  unfoldable pub address_value : ℕ → Text → Fields → Option ℕ
  address_value minimum key cube = at_least minimum (int_value (get_or null key cube))

  unfoldable pub float_value : Value → Option Ratio
  float_value (integer n) = some (numbers.float_of_int n)
  float_value (fraction q) = some q
  float_value (text t) = numbers.float_of_text t
  float_value _ = none

  unfoldable pub parse_fields : Fields → Option (List (Text × Ratio))
  parse_fields no_field = some []
  parse_fields (field label raw fields) =
      let rest = parse_fields fields in
      do
        name ← label_text u label
        q ← checked_fraction (float_value raw)
        overrides ← rest
        some ((name, q) ∷ overrides)

  unfoldable pub parse_overrides : Value → Option (List (Text × Ratio))
  parse_overrides (mapping fields) = parse_fields fields
  parse_overrides _ = none

  unfoldable pub parse_cube : Value → Option CutPointEntry
  parse_cube (mapping cube) = do
    is_empty ← boolean_value (get_or (boolean false) (codes "is_empty") cube)
    unit_id ← address_value 1 (codes "unit_id") cube
    row ← address_value 0 (codes "row") cube
    col ← address_value 0 (codes "col") cube
    first_label ← optional_text (get_or null (codes "first_label") cube)
    first_catalog ← optional_text (get_or null (codes "first_catalog") cube)
    overrides ← parse_overrides (get_or (mapping no_field) (codes "overrides") cube)
    some (record {
      unit_id = unit_id;
      row = row;
      col = col;
      first_label = first_label;
      first_catalog = first_catalog;
      is_empty = is_empty;
      overrides = overrides;
    })
  parse_cube _ = none

  unfoldable pub parse_cubes : Values → Option (List CutPointEntry)
  parse_cubes nil = some []
  parse_cubes (cons cube cubes) =
      let rest = parse_cubes cubes in
      do entry ← parse_cube cube; entries ← rest; some (entry ∷ entries)

  parse_list : Value → Option (List CutPointEntry)
  parse_list (sequence cubes) = parse_cubes cubes
  parse_list _ = none

  unfoldable pub parse_yaml_boundaries : Value → Option (List CutPointEntry)
  unfolding parse_list
  parse_yaml_boundaries (mapping data_fields) =
      if is_key (codes "1") (get_or null (codes "version") data_fields)
      then parse_list (get_or (sequence nil) (codes "cubes") data_fields)
      else none
  parse_yaml_boundaries _ = none

abbrev pub place_of : CutPointEntry → ℕ × (ℕ × ℕ)
place_of e = (e.unit_id, (e.row, e.col))

abbrev pub sorted_entries : List CutPointEntry → List CutPointEntry
sorted_entries = sort_by (pair_order nat_order (pair_order nat_order nat_order)) place_of

-- By label: the keys of a dict are distinct.
abbrev pub sorted_overrides : List (Text × Ratio) → List (Text × Ratio)
sorted_overrides = sort_by (list_order nat_order) (λ o. o.0)

abbrev text_or_null : Option Text → Value
text_or_null none = null
text_or_null (some t) = text t

unfoldable pub override_fields : List (Text × Ratio) → Fields
override_fields [] = no_field
override_fields ((label, q) ∷ overrides) =
    field (text label) (fraction q) (override_fields overrides)

-- The last key of a cube, if there are overrides.
abbrev with_overrides : List (Text × Ratio) → Fields
with_overrides [] = no_field
with_overrides (o ∷ overrides) =
    field (text (codes "overrides")) (mapping (override_fields (sorted_overrides (o ∷ overrides))))
      no_field

abbrev cut_fields : Bool → CutPointEntry → Fields
cut_fields true e = no_field
cut_fields false e = field (text (codes "first_label")) (text_or_null e.first_label) (
    field (text (codes "first_catalog")) (text_or_null e.first_catalog)
      (with_overrides e.overrides))

unfoldable pub serialize_cube : CutPointEntry → Value
serialize_cube e = mapping (
    field (text (codes "unit_id")) (integer e.unit_id) (
      field (text (codes "row")) (integer e.row) (
        field (text (codes "col")) (integer e.col)
          (field (text (codes "is_empty")) (boolean e.is_empty) (cut_fields e.is_empty e)))))

unfoldable pub serialize_cubes : List CutPointEntry → Values
serialize_cubes [] = nil
serialize_cubes (e ∷ entries) = cons (serialize_cube e) (serialize_cubes entries)

unfoldable pub serialize_boundaries_yaml : List CutPointEntry → Value
serialize_boundaries_yaml entries = mapping (
    field (text (codes "version")) (text (codes "1"))
      (field (text (codes "cubes")) (sequence (serialize_cubes (sorted_entries entries))) no_field))
