-- ===== src/Segments/Bins/Groups.antt =====
-- The groups of a bin's records by label: no record is lost, and each group is one label.
use gruvax.Base.{
  ℕ, suc, ◌+◌, ◌<◌, ◌≡◌, refl, true, List, [], ◌∷◌, ◌++◌, arith, text_eq, text_eq_sound, length,
  length-append, inl, inr, Bool-cases, sym, All, All-append, some,
}
use gruvax.Base.Order.{Order}
use gruvax.Base.Sort.{sort_by, insert_by}
use gruvax.Unicode.{Unicode}
use gruvax.Segments.Assign.{label_order, label_key}
use gruvax.Snapshot.{RecordRow}
use gruvax.Segments.Bins.{Group, add_to_groups, group_records, ordered_groups}

-- The records in all groups.
unfoldable pub group_total : List Group → ℕ
group_total [] = 0
group_total (g ∷ groups) = length g.records + group_total groups

module _ {K : Type 0} (o : Order K) (key : Group → K) where
  total-insert_by :
      (g : Group) (groups : List Group)
      → group_total (insert_by o key g groups) ≡ length g.records + group_total groups
  unfolding group_total insert_by
  total-insert_by g [] = omega arith
  total-insert_by g (h ∷ groups) = ground (arith, total-insert_by g groups)

  pub total-sort_by :
      (groups : List Group) → group_total (sort_by o key groups) ≡ group_total groups
  unfolding group_total sort_by
  total-sort_by [] = refl
  total-sort_by (g ∷ groups) =
      omega (arith, total-insert_by g (sort_by o key groups), total-sort_by groups)

module _ (u : Unicode) where
  -- A group is one label's records, at least one.
  pub record IsGroup (g : Group) : Type 0 where
    pub one_label : All (λ r. u.casefold r.label ≡ g.label) g.records
    pub some_record : 0 < length g.records

  total-add_to_groups :
      (r : RecordRow) (groups : List Group)
      → group_total (add_to_groups u r groups) ≡ suc (group_total groups)
  unfolding group_total add_to_groups
  total-add_to_groups r [] = omega arith
  total-add_to_groups r (g ∷ groups) =
      ground (arith, total-add_to_groups r groups, length-append g.records (r ∷ []))

  total-group_records :
      (groups : List Group) (records : List RecordRow)
      → group_total (group_records u groups records) ≡ group_total groups + length records
  unfolding group_records
  total-group_records groups [] = omega arith
  total-group_records groups (r ∷ records) =
      omega (
        arith,
        total-group_records (add_to_groups u r groups) records,
        total-add_to_groups r groups,
      )

  -- The groups of a bin hold as many records as the bin.
  pub total-ordered_groups :
      (records : List RecordRow) → group_total (ordered_groups u records) ≡ length records
  unfolding ordered_groups group_total
  total-ordered_groups records =
      let groups = group_records u [] records in
      omega (
        arith,
        total-sort_by label_order (λ g. label_key u (some g.label)) groups,
        total-group_records [] records,
      )

  IsGroup-append :
      (g : Group) (r : RecordRow)
      → text_eq g.label (u.casefold r.label) ≡ true
      → IsGroup g
      → IsGroup (record g { records = g.records ++ r ∷ [] })
  IsGroup-append g r e h = record {
    one_label = All-append _ g.records (r ∷ []) h.one_label (sym (text_eq_sound _ _ e), tt);
    some_record = omega (arith, length-append g.records (r ∷ []));
  }

  IsGroup-add :
      (r : RecordRow) (groups : List Group)
      → All IsGroup groups
      → All IsGroup (add_to_groups u r groups)
  unfolding add_to_groups
  IsGroup-add r [] h = (record { one_label = (refl, tt); some_record = omega arith }, tt)
  IsGroup-add r (g ∷ groups) h = elim (Bool-cases (text_eq g.label (u.casefold r.label))) [
    | inl e ↦ rw e (IsGroup-append g r e h.0, h.1)
    | inr e ↦ rw e (h.0, IsGroup-add r groups h.1)
  ]

  IsGroup-group_records :
      (groups : List Group) (records : List RecordRow)
      → All IsGroup groups
      → All IsGroup (group_records u groups records)
  unfolding group_records
  IsGroup-group_records groups [] h = h
  IsGroup-group_records groups (r ∷ records) h =
      IsGroup-group_records (add_to_groups u r groups) records (IsGroup-add r groups h)
