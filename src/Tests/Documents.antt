-- ===== src/Tests/Documents.antt =====
-- A document of two cubes.
use gruvax.Base.{◌≡◌, refl, true, false, none, some, [], ◌∷◌, codes, map}
use gruvax.Base.Sort.{sort_by, insert_by}
use gruvax.Base.Ratio.{ratio}
use gruvax.Unicode.Ascii.{ascii}
use gruvax.Normalize.{strip, lstrip, rstrip}
use gruvax.Formats.{
  Numbers, CutPointEntry, integer, text, mapping, no_field, field, parse_cube, get_or,
  address_value, int_value, sorted_entries, parse_yaml_boundaries, serialize_boundaries_yaml,
}
use gruvax.Base.Dict.{get}
use gruvax.Formats.Csv.{
  CsvRow, csv_field, csv_address, parse_csv_row, parse_csv_rows, parse_csv_boundaries,
  required_headers,
}
use gruvax.Formats.RoundTrip.{IsEntry, stored, parse-serialize_boundaries_yaml}

abbrev numbers : Numbers
numbers = record {
  int_of_text = λ t. none;
  int_of_fraction = λ q. none;
  float_of_text = λ t. none;
  float_of_int = λ n. ratio n 1;
}

abbrev cube : CutPointEntry
cube = record {
  unit_id = 1;
  row = 0;
  col = 1;
  first_label = some (codes "Impulse");
  first_catalog = some (codes "A-1");
  is_empty = false;
  overrides = (codes "Impulse", ratio 1 2) ∷ (codes "Argo", ratio 1 4) ∷ [];
}

-- An empty cube with a label, which its document leaves out.
abbrev empty_cube : CutPointEntry
empty_cube = record cube { col = 0; is_empty = true; overrides = [] }

in_order :
    map stored (sorted_entries (cube ∷ empty_cube ∷ []))
    ≡ record empty_cube { first_label = none; first_catalog = none }
      ∷ record cube { overrides = (codes "Argo", ratio 1 4) ∷ (codes "Impulse", ratio 1 2) ∷ [] }
      ∷ []
unfolding sort_by insert_by
in_order = refl

-- A unit counts from one.
no_unit :
    parse_cube ascii numbers (
      mapping (
        field (text (codes "unit_id")) (integer 0) (
          field
            (text (codes "row"))
            (integer 0)
            (field (text (codes "col")) (integer 0) no_field))))
    ≡ none
unfolding parse_cube get_or address_value int_value
no_unit = refl

valid_cube : IsEntry ascii numbers cube
unfolding strip lstrip rstrip
valid_cube = (refl, ((refl, refl), ((refl, refl), tt)))

parse-serialize_boundaries_yaml_example :
    parse_yaml_boundaries ascii numbers (serialize_boundaries_yaml (cube ∷ empty_cube ∷ []))
    ≡ some (map stored (sorted_entries (cube ∷ empty_cube ∷ [])))
parse-serialize_boundaries_yaml_example =
    parse-serialize_boundaries_yaml ascii numbers (cube ∷ empty_cube ∷ [])
      (valid_cube, ((refl, tt), tt))

-- A row whose label is blank and whose cube is empty.
abbrev csv_row : CsvRow
csv_row = record {
  fields =
      (codes "unit_id", some (codes "2"))
      ∷ (codes "row", some (codes " 0"))
      ∷ (codes "col", some (codes "1"))
      ∷ (codes "first_label", some (codes " "))
      ∷ (codes "first_catalog", some [])
      ∷ (codes "is_empty", some (codes "yes "))
      ∷ [];
  has_more = false;
}

read_row :
    parse_csv_boundaries ascii
      (λ t. t)
      (record numbers { int_of_text = λ t. some 2 })
      required_headers
      (some (csv_row ∷ []))
    ≡ some (
        record cube {
          unit_id = 2;
          row = 2;
          col = 2;
          first_label = none;
          first_catalog = none;
          is_empty = true;
          overrides = [];
        }
        ∷ [])
unfolding parse_csv_boundaries parse_csv_rows parse_csv_row csv_field csv_address get strip lstrip
    rstrip
read_row = refl
