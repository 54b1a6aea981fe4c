-- ===== src/Snapshot/Grouping.antt =====
-- The lookup of gruvax/estimator/collection_snapshot.py returns the rows of one label, in their order.
use mathlib.Core.List.{append_assoc, append-nil}
use gruvax.Base.{
  ◌≡◌, refl, ap, List, [], ◌∷◌, ◌++◌, map, keep, Text, text_eq, text_eq_sound, Bool-cases, inl, inr,
  ◌∙◌,
}
use gruvax.Base.Dict.{get, get-put_self, get-put_ne}
use gruvax.Unicode.{Unicode}
use gruvax.Snapshot.{
  RecordRow, RawRow, ByLabel, CollectionSnapshot, text_key, records_of, to_record, row_key, add_row,
  group_rows, load, get_label_records,
}

module _ (u : Unicode) where
  -- The rows whose casefolded label is the key.
  abbrev pub rows_of : Text → List RawRow → List RecordRow
  rows_of key rows = map to_record (keep (λ row. text_eq (row_key u row) key) rows)

  rows_of-cons :
      (key : Text) (row : RawRow) (rows : List RawRow)
      → rows_of key (row ∷ []) ++ rows_of key rows ≡ rows_of key (row ∷ rows)
  rows_of-cons key row rows = elim (Bool-cases (text_eq (row_key u row) key)) [
    | inl e ↦ rw e
    | inr e ↦ rw e
  ]

  records_of-add_row :
      (key : Text) (d : ByLabel) (row : RawRow)
      → records_of key (add_row u d row) ≡ records_of key d ++ rows_of key (row ∷ [])
  unfolding add_row records_of
  records_of-add_row key d row = elim (Bool-cases (text_eq (row_key u row) key)) [
    | inl e ↦ rw (e, text_eq_sound (row_key u row) key e, get-put_self text_key key _ d) refl
    | inr e ↦ rw (e, get-put_ne text_key (row_key u row) key _ d e) (simp append-nil)
  ]

  records_of-group_rows :
      (key : Text) (d : ByLabel) (rows : List RawRow)
      → records_of key (group_rows u d rows) ≡ records_of key d ++ rows_of key rows
  unfolding group_rows
  records_of-group_rows key d [] = simp append-nil
  records_of-group_rows key d (row ∷ rows) =
      records_of-group_rows key (add_row u d row) rows
      ∙ ap (λ l. l ++ rows_of key rows) (records_of-add_row key d row)
      ∙ append_assoc (records_of key d) (rows_of key (row ∷ [])) (rows_of key rows)
      ∙ ap (λ l. records_of key d ++ l) (rows_of-cons key row rows)

  -- After a load, looking a label up returns the records of exactly the rows with that label, case
  -- ignored, in the order of the SELECT.
  pub get_label_records-load :
      (rows : List RawRow) (snapshot : CollectionSnapshot) (label : Text)
      → get_label_records u (load u rows snapshot) label ≡ rows_of (u.casefold label) rows
  unfolding get_label_records load records_of get
  get_label_records-load rows snapshot label = records_of-group_rows (u.casefold label) [] rows
