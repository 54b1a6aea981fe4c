-- ===== src/Tests.antt =====
-- A small shelf, and the theorems of the library at it.
mod Catalog
mod Shelf
mod Place
mod Contents
mod Editing
mod Widths
mod Preview
mod Kiosks
mod Documents
mod Admin
mod Stream
mod Paging
use gruvax.Base.{ℕ, Bool, true, false, Option, none, some, List, [], ◌∷◌, Text, codes}
use gruvax.Base.Ratio.{Ratio, ratio}
use gruvax.Snapshot.{RecordRow, ByLabel, RawRow, CollectionSnapshot}
use gruvax.Boundaries.{BoundaryRow, BoundaryCache, Overrides}
use gruvax.Segments.Derive.{SegmentCache, empty}

-- Two cubes with cuts, out of alphabetical order, and an empty one between them.
abbrev impulse : BoundaryRow
impulse = record {
  unit_id = 1;
  row = 0;
  col = 0;
  first_label = some (codes "Impulse");
  first_catalog = some (codes "A-1");
  is_empty = false;
}

abbrev gap : BoundaryRow
gap = record impulse { col = 1; first_label = none; first_catalog = none; is_empty = true }

abbrev blue_note : BoundaryRow
blue_note = record impulse {
  col = 2;
  first_label = some (codes "Blue Note");
  first_catalog = some (codes "BLP 1");
}

abbrev shelf : List BoundaryRow
shelf = impulse ∷ gap ∷ blue_note ∷ []

abbrev rows : List RawRow
rows =
    (1, some (codes "Blue Note"), some (codes "BLP 10"))
    ∷ (2, some (codes "BLUE NOTE"), some (codes "BLP-9"))
    ∷ (3, some (codes "Impulse"), some (codes "A-6"))
    ∷ []

abbrev record_1 : RecordRow
record_1 = record { release_id = 1; label = codes "Blue Note"; catalog_number = codes "BLP 10" }

abbrev record_2 : RecordRow
record_2 = record { release_id = 2; label = codes "BLUE NOTE"; catalog_number = codes "BLP-9" }

abbrev record_3 : RecordRow
record_3 = record { release_id = 3; label = codes "Impulse"; catalog_number = codes "A-6" }

abbrev by_label : ByLabel
by_label = (codes "blue note", record_1 ∷ record_2 ∷ []) ∷ (codes "impulse", record_3 ∷ []) ∷ []

abbrev snapshot : CollectionSnapshot
snapshot = record { by_label = by_label }

abbrev overrides : Overrides
overrides = ((1, 0, 2, codes "blue note"), ratio 1 2) ∷ []

abbrev boundaries : BoundaryCache
boundaries = record { generation = 1; rows = shelf; overrides = overrides }

abbrev no_cache : SegmentCache
no_cache = empty
