-- ===== src/Formats/Csv.antt =====
-- gruvax/io/boundary_csv.py: cut points of cubes from the rows that csv.DictReader reads. An error is
-- `none`.
use gruvax.Base.{
  Bool, not, ℕ, Option, none, some, List, [], ◌∷◌, Text, text_eq, codes, any, leb, if◌then◌else◌,
  ◌>>=◌,
}
use gruvax.Base.Dict.{get}
use gruvax.Unicode.{Unicode}
use gruvax.Normalize.{strip}
use gruvax.Editing.Validation.{text_key}
use gruvax.Editing.Bulk.{or_none}
use gruvax.Formats.{Numbers, CutPointEntry}

-- A row: a missing field has no text, and the fields past the header stand under the key None.
pub record CsvRow : Type 0 where
  pub fields : List (Text × Option Text)
  pub has_more : Bool

abbrev pub required_headers : List Text
required_headers =
    codes "unit_id"
    ∷ codes "row"
    ∷ codes "col"
    ∷ codes "first_label"
    ∷ codes "first_catalog"
    ∷ codes "is_empty"
    ∷ []

abbrev pub truthy : List Text
truthy = codes "true" ∷ codes "1" ∷ codes "yes" ∷ []

abbrev pub is_member : Text → List Text → Bool
is_member t = any (λ s. text_eq s t)

-- `REQUIRED_HEADERS.issubset(set(fieldnames))`.
abbrev pub has_headers : List Text → Bool
has_headers fieldnames = not (any (λ h. not (is_member h fieldnames)) required_headers)

abbrev flat : Option (Option Text) → Option Text
flat none = none
flat (some t) = t

-- `row.get(key)`.
unfoldable pub csv_field : Text → CsvRow → Option Text
csv_field key row = flat (get text_key key row.fields)

abbrev pub address_of : ℕ → Option ℕ → Option ℕ
address_of minimum none = none
address_of minimum (some n) = if leb minimum n then some n else none

-- `lower` is `str.lower`.
module _ (u : Unicode) (lower : Text → Text) (numbers : Numbers) where
  unfoldable pub csv_address : ℕ → Text → CsvRow → Option ℕ
  csv_address minimum key row = do
    t ← csv_field key row
    address_of minimum (numbers.int_of_text (strip u t))

  -- The fields that are missing are looked up before the addresses are read.
  read_fields : CsvRow → Option CutPointEntry
  read_fields row = do
    unit_id ← csv_field (codes "unit_id") row
    row_index ← csv_field (codes "row") row
    col ← csv_field (codes "col") row
    label ← csv_field (codes "first_label") row
    catalog ← csv_field (codes "first_catalog") row
    empty ← csv_field (codes "is_empty") row
    unit ← csv_address 1 (codes "unit_id") row
    r ← csv_address 0 (codes "row") row
    c ← csv_address 0 (codes "col") row
    some (record {
      unit_id = unit;
      row = r;
      col = c;
      first_label = or_none (strip u label);
      first_catalog = or_none (strip u catalog);
      is_empty = is_member (lower (strip u empty)) truthy;
      overrides = [];
    })

  unfoldable pub parse_csv_row : CsvRow → Option CutPointEntry
  unfolding read_fields
  parse_csv_row row = let entry = read_fields row in if row.has_more then none else entry

  unfoldable pub parse_csv_rows : List CsvRow → Option (List CutPointEntry)
  parse_csv_rows [] = some []
  parse_csv_rows (row ∷ rows) =
      let rest = parse_csv_rows rows in
      do entry ← parse_csv_row row; entries ← rest; some (entry ∷ entries)

  -- The header and the rows are those of the text without its byte order marks. `none` for the rows is an
  -- error of the csv library.
  unfoldable pub parse_csv_boundaries :
      List Text → Option (List CsvRow) → Option (List CutPointEntry)
  parse_csv_boundaries fieldnames rows =
      if has_headers fieldnames then rows >>= parse_csv_rows else none
