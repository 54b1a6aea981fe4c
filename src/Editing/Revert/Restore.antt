-- ===== src/Editing/Revert/Restore.antt =====
-- The old cuts, written over the new ones, give the table back.
use gruvax.Base.{
  ◌≡◌, refl, sym, ap, ap₂, subst, ◌∙◌, Bool, true, false, some, List, [], ◌∷◌, ◌&&◌, ◌||◌, map,
  arith, if◌then◌else◌, All, In, any, Bool-cases, inl, inr, map-In, not,
}
use gruvax.Boundaries.{BoundaryRow}
use gruvax.Segments.Assign.{Position, position}
use gruvax.Editing.{
  Edit, Cut, cut_of, with_cut, set_cut, is_at, same_place, same_place_refl, same_place_sound,
  or_no_cut,
}
use gruvax.Editing.Apart.{IsApart, same_place_comm, Differs, places, prev_of, apply_edits}
use gruvax.Editing.Revert.{restored, is_truthy}
use gruvax.Editing.Revert.Loop.{undo}

-- The constraint cut_point_complete, for texts that are not empty.
abbrev pub IsComplete : List BoundaryRow → Type 0
IsComplete = All (λ r. (r.is_empty || is_truthy r.first_label && is_truthy r.first_catalog) ≡ true)

restored_complete :
    (r : BoundaryRow)
    → (r.is_empty || is_truthy r.first_label && is_truthy r.first_catalog) ≡ true
    → restored (cut_of r) ≡ cut_of r
unfolding restored
restored_complete r h =
    ap
      (λ (b : Bool). record {
        first_label = r.first_label;
        first_catalog = r.first_catalog;
        is_empty = b;
      })
      (flag r.is_empty _ h)
  where
    flag : (e t : Bool) → (e || t) ≡ true → (e || not t) ≡ e
    flag true t h = refl
    flag false t h = ground arith

Differs-In : (p q : Position) (ps : List Position) → Differs p ps → In q ps → same_place p q ≡ false
Differs-In p q [] d m = absurd m
Differs-In p q (x ∷ ps) d (inl e) = rw e d.0
Differs-In p q (x ∷ ps) d (inr m) = Differs-In p q ps d.1 m

prev_of-In :
    (r : BoundaryRow) (rows : List BoundaryRow)
    → IsApart (places rows)
    → In r rows
    → prev_of rows (position r) ≡ some (cut_of r)
prev_of-In r [] a m = absurd m
prev_of-In r (x ∷ rows) a (inl e) =
    subst (λ y. prev_of (y ∷ rows) (position r) ≡ some (cut_of r)) e
      (rw (same_place_refl (position r)) refl)
prev_of-In r (x ∷ rows) a (inr m) = elim (Bool-cases (is_at (position r) x)) [
  | inl e ↦
      let other =
        Differs-In (position x) (position r) (places rows) a.0 (map-In position r rows m) in
      let clash = sym e ∙ same_place_comm (position r) (position x) ∙ other in ground (arith, clash)
  | inr e ↦ rw e (prev_of-In r rows a.1 m)
]

-- What edits make of one row.
row_after : List Edit → BoundaryRow → BoundaryRow
row_after [] r = r
row_after ((p, c) ∷ edits) r = row_after edits (set_cut p c r)

apply_edits-cons :
    (edits : List Edit) (r : BoundaryRow) (rows : List BoundaryRow)
    → apply_edits edits (r ∷ rows) ≡ row_after edits r ∷ apply_edits edits rows
unfolding apply_edits row_after
apply_edits-cons [] r rows = refl
apply_edits-cons ((p, c) ∷ edits) r rows =
    apply_edits-cons edits (set_cut p c r) (map (set_cut p c) rows)

apply_edits-nil : (edits : List Edit) → apply_edits edits [] ≡ []
unfolding apply_edits
apply_edits-nil [] = refl
apply_edits-nil ((p, c) ∷ edits) = apply_edits-nil edits

meets : List Edit → BoundaryRow → Bool
meets edits r = any (λ e. is_at e.0 r) edits

row_after-with_cut :
    (edits : List Edit) (r : BoundaryRow) (d : Cut)
    → (c : Cut) × (row_after edits (with_cut d r) ≡ with_cut c r)
unfolding row_after
row_after-with_cut [] r d = (d, refl)
row_after-with_cut ((p, c) ∷ edits) r d = elim (Bool-cases (is_at p r)) [
  | inl e ↦ rw (row_after, e) (row_after-with_cut edits r c)
  | inr e ↦ rw (row_after, e) (row_after-with_cut edits r d)
]

row_after_unmet :
    (edits : List Edit) (r : BoundaryRow) → meets edits r ≡ false → row_after edits r ≡ r
unfolding row_after meets
row_after_unmet [] r h = refl
row_after_unmet ((p, c) ∷ edits) r h = elim (Bool-cases (is_at p r)) [
  | inl e ↦ ground arith
  | inr e ↦ rw (row_after, e) (row_after_unmet edits r (rw e at h))
]

either_way : (b : Bool) (r : BoundaryRow) → (if b then r else r) ≡ r
either_way true r = refl
either_way false r = refl

row_after-undo :
    (rows : List BoundaryRow) (edits : List Edit) (r : BoundaryRow) (d : Cut)
    → prev_of rows (position r) ≡ some (cut_of r)
    → restored (cut_of r) ≡ cut_of r
    → row_after (undo rows edits) (with_cut d r) ≡ (if meets edits r then r else with_cut d r)
unfolding row_after meets
row_after-undo rows [] r d prev complete = refl
row_after-undo rows ((p, c) ∷ edits) r d prev complete = elim (Bool-cases (is_at p r)) [
  | inl e ↦
      let old : restored (or_no_cut (prev_of rows p)) ≡ cut_of r =
        ap (λ q. restored (or_no_cut (prev_of rows q))) (same_place_sound p (position r) e)
        ∙ ap (λ o. restored (or_no_cut o)) prev
        ∙ complete in
      let back : set_cut p (restored (or_no_cut (prev_of rows p))) (with_cut d r) ≡ r =
        ap (λ x. set_cut p x (with_cut d r)) old
        ∙ ap (λ b. if b then with_cut (cut_of r) r else with_cut d r) e in
      ap (row_after (undo rows edits)) back
      ∙ row_after-undo rows edits r (cut_of r) prev complete
      ∙ either_way (meets edits r) r
      ∙ sym (ap (λ b. if (if b then true else meets edits r) then r else with_cut d r) e)
  | inr e ↦
      let kept : set_cut p (restored (or_no_cut (prev_of rows p))) (with_cut d r) ≡ with_cut d r =
        ap (λ b. if b then with_cut (restored (or_no_cut (prev_of rows p))) r else with_cut d r)
          e in
      ap (row_after (undo rows edits)) kept
      ∙ row_after-undo rows edits r d prev complete
      ∙ sym (ap (λ b. if (if b then true else meets edits r) then r else with_cut d r) e)
]

-- One row is given back.
row_restored :
    (rows : List BoundaryRow) (edits : List Edit) (r : BoundaryRow)
    → prev_of rows (position r) ≡ some (cut_of r)
    → restored (cut_of r) ≡ cut_of r
    → row_after (undo rows edits) (row_after edits r) ≡ r
row_restored rows edits r prev complete =
    let (c, e) = row_after-with_cut edits r (cut_of r) in
    ap (row_after (undo rows edits)) e
    ∙ row_after-undo rows edits r c prev complete
    ∙ either (meets edits r) refl e
  where
    either :
        (b : Bool) {c : Cut}
        → meets edits r ≡ b
        → row_after edits r ≡ with_cut c r
        → (if b then r else with_cut c r) ≡ r
    either true h e = refl
    either false h e = sym e ∙ row_after_unmet edits r h

rows_restored :
    (rows : List BoundaryRow) (edits : List Edit) (some_rows : List BoundaryRow)
    → IsApart (places rows)
    → IsComplete some_rows
    → ((r : BoundaryRow) → In r some_rows → In r rows)
    → apply_edits (undo rows edits) (apply_edits edits some_rows) ≡ some_rows
rows_restored rows edits [] apart complete from =
    ap (apply_edits (undo rows edits)) (apply_edits-nil edits) ∙ apply_edits-nil (undo rows edits)
rows_restored rows edits (r ∷ rs) apart complete from =
    ap (apply_edits (undo rows edits)) (apply_edits-cons edits r rs)
    ∙ apply_edits-cons (undo rows edits) (row_after edits r) (apply_edits edits rs)
    ∙ ap₂ ◌∷◌
        (row_restored rows edits r (prev_of-In r rows apart (from r (inl refl)))
          (restored_complete r complete.0))
        (rows_restored rows edits rs apart complete.1 (λ x m. from x (inr m)))

-- A table that edits have changed is given back by the edits that undo them.
pub apply_edits-undo :
    (rows : List BoundaryRow) (edits : List Edit)
    → IsApart (places rows)
    → IsComplete rows
    → apply_edits (undo rows edits) (apply_edits edits rows) ≡ rows
apply_edits-undo rows edits apart complete = rows_restored rows edits rows apart complete (λ r m. m)
