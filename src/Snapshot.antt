-- ===== src/Snapshot.antt =====
-- gruvax/estimator/collection_snapshot.py: the records of a collection, grouped by casefolded label.
pub mod Grouping
use gruvax.Base.{
  ℕ, Option, none, some, List, [], ◌∷◌, ◌++◌, Text, text_eq, text_eq_refl, text_eq_sound,
}
use gruvax.Base.Dict.{KeyTest, get, put}
use gruvax.Unicode.{Unicode}

pub record RecordRow : Type 0 where
  pub release_id : ℕ
  pub label : Text
  pub catalog_number : Text

-- A row of the SELECT: release_id, label and catalog_number, the last two nullable.
abbrev pub RawRow : Type 0
RawRow = ℕ × Option Text × Option Text

abbrev pub text_key : KeyTest Text
text_key = record { same = text_eq; same_refl = text_eq_refl; same_sound = text_eq_sound }

abbrev pub ByLabel : Type 0
ByLabel = List (Text × List RecordRow)

pub record CollectionSnapshot : Type 0 where
  pub by_label : ByLabel

-- `CollectionSnapshot()`.
abbrev pub empty : CollectionSnapshot
empty = record { by_label = [] }

-- `s or ""`.
abbrev pub or_blank : Option Text → Text
or_blank none = []
or_blank (some s) = s

-- `d.get(k, [])`.
abbrev pub or_nil : Option (List RecordRow) → List RecordRow
or_nil none = []
or_nil (some l) = l

-- `get_label_records`'s lookup, by a key that is casefolded already.
unfoldable pub records_of : Text → ByLabel → List RecordRow
records_of key d = or_nil (get text_key key d)

unfoldable pub to_record : RawRow → RecordRow
to_record (release_id, label, catalog_number) = record {
  release_id = release_id;
  label = or_blank label;
  catalog_number = or_blank catalog_number;
}

module _ (u : Unicode) where
  unfoldable pub row_key : RawRow → Text
  row_key (release_id, label, catalog_number) = u.casefold (or_blank label)

  -- One round of the loop in `load`.
  unfoldable pub add_row : ByLabel → RawRow → ByLabel
  add_row d row =
      let key = row_key row in put text_key key (records_of key d ++ to_record row ∷ []) d

  unfoldable pub group_rows : ByLabel → List RawRow → ByLabel
  group_rows d [] = d
  group_rows d (row ∷ rows) = group_rows (add_row d row) rows

  -- `load`, on the rows that its SELECT returns.
  unfoldable pub load : List RawRow → CollectionSnapshot → CollectionSnapshot
  load rows snapshot = record { by_label = group_rows [] rows }

  unfoldable pub get_label_records : CollectionSnapshot → Text → List RecordRow
  get_label_records snapshot label = records_of (u.casefold label) snapshot.by_label

unfoldable pub publish_from : CollectionSnapshot → CollectionSnapshot → CollectionSnapshot
publish_from prepared snapshot = record { by_label = prepared.by_label }

unfoldable pub load_snapshot : ByLabel → CollectionSnapshot → CollectionSnapshot
load_snapshot by_label snapshot = record { by_label = by_label }

unfoldable pub invalidate : CollectionSnapshot → CollectionSnapshot
invalidate snapshot = record { by_label = [] }
