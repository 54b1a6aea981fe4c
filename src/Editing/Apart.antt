-- ===== src/Editing/Apart.antt =====
-- The primary key of cube_boundaries: the places of its rows differ. What the UPDATEs of a list of edits
-- come to on such rows.
use mathlib.Core.List.{append_assoc, append-nil}
use gruvax.Base.{
  ◌≡◌, refl, sym, ap, ap₂, subst, ◌∙◌, ℕ, suc, true, false, Option, List, [], ◌∷◌, ◌++◌, map, arith,
  All, In, keep, length, Bool-cases, inl, inr, ◌⊎◌,
}
use gruvax.Base.Sort.{insert_by, sort_by, sort_by-map}
use gruvax.Boundaries.{BoundaryRow}
use gruvax.Segments.Assign.{Position, position, position_order, shelf_order}
use gruvax.Editing.{
  Edit, Cut, Environment, Source, Database, HistoryRow, cut_of, first_of, or_no_cut,
  same_place_sound, written, same_place, same_place_refl, is_at, with_cut, set_cut, write_boundary,
  write_and_record, write_edit, write_edits, write_history_row, fetch_current_boundary,
}

abbrev pub Differs : Position → List Position → Type 0
Differs p = All (λ q. same_place p q ≡ false)

abbrev pub IsApart : List Position → Type 0
IsApart [] = Unit
IsApart (p ∷ ps) = Differs p ps × IsApart ps

pub same_place_comm : (p q : Position) → same_place p q ≡ same_place q p
same_place_comm (u, (r, c)) (u', (r', c')) = ground arith

-- The sort keeps the places apart.
abbrev pub places : List BoundaryRow → List Position
places = map position

insert_by-Differs :
    (p : Position) (x : BoundaryRow) (xs : List BoundaryRow)
    → same_place p (position x) ≡ false
    → Differs p (places xs)
    → Differs p (places (insert_by position_order position x xs))
unfolding insert_by
insert_by-Differs p x [] h d = (h, tt)
insert_by-Differs p x (y ∷ ys) h d =
    elim (Bool-cases (position_order.le (position x) (position y))) [
      | inl e ↦ rw e (h, d)
      | inr e ↦ rw e (d.0, insert_by-Differs p x ys h d.1)
    ]

insert_by-IsApart :
    (x : BoundaryRow) (xs : List BoundaryRow)
    → Differs (position x) (places xs)
    → IsApart (places xs)
    → IsApart (places (insert_by position_order position x xs))
unfolding insert_by
insert_by-IsApart x [] d a = (tt, tt)
insert_by-IsApart x (y ∷ ys) d a = elim (Bool-cases (position_order.le (position x) (position y))) [
  | inl e ↦ rw e (d, a)
  | inr e ↦
      let apart : same_place (position y) (position x) ≡ false =
        same_place_comm (position y) (position x) ∙ d.0 in
      rw e (insert_by-Differs (position y) x ys apart a.0, insert_by-IsApart x ys d.1 a.1)
]

sort_by-Differs :
    (p : Position) (rows : List BoundaryRow)
    → Differs p (places rows)
    → Differs p (places (sort_by position_order position rows))
unfolding sort_by
sort_by-Differs p [] d = tt
sort_by-Differs p (x ∷ xs) d =
    insert_by-Differs p x (sort_by position_order position xs) d.0 (sort_by-Differs p xs d.1)

pub shelf_order-IsApart :
    (rows : List BoundaryRow) → IsApart (places rows) → IsApart (places (shelf_order rows))
unfolding shelf_order sort_by
shelf_order-IsApart [] a = tt
shelf_order-IsApart (x ∷ xs) a =
    insert_by-IsApart x (sort_by position_order position xs) (sort_by-Differs (position x) xs a.0)
      (shelf_order-IsApart xs a.1)

-- The UPDATEs of a list of edits.
unfoldable pub apply_edits : List Edit → List BoundaryRow → List BoundaryRow
apply_edits [] rows = rows
apply_edits ((p, c) ∷ edits) rows = apply_edits edits (map (set_cut p c) rows)

pub position-set_cut :
    (p : Position) (c : Cut) (r : BoundaryRow) → position (set_cut p c r) ≡ position r
position-set_cut p c r = elim (Bool-cases (is_at p r)) [ inl e ↦ rw e refl | inr e ↦ rw e refl ]

-- The edits commute with the order of the shelf.
pub shelf_order-apply_edits :
    (edits : List Edit) (rows : List BoundaryRow)
    → shelf_order (apply_edits edits rows) ≡ apply_edits edits (shelf_order rows)
unfolding apply_edits shelf_order
shelf_order-apply_edits [] rows = refl
shelf_order-apply_edits ((p, c) ∷ edits) rows =
    shelf_order-apply_edits edits (map (set_cut p c) rows)
    ∙ ap (apply_edits edits)
        (sort_by-map position_order position (set_cut p c) (position-set_cut p c) rows)

set_cut-Differs :
    (p : Position) (c : Cut) (rows : List BoundaryRow)
    → Differs p (places rows)
    → map (set_cut p c) rows ≡ rows
set_cut-Differs p c [] d = refl
set_cut-Differs p c (r ∷ rows) d = rw d.0 (ap (◌∷◌ r) (set_cut-Differs p c rows d.1))

Differs-at :
    (p : Position) (front : List BoundaryRow) (r : BoundaryRow) (back : List BoundaryRow)
    → Differs p (places (front ++ r ∷ back))
    → same_place p (position r) ≡ false
Differs-at p [] r back d = d.0
Differs-at p (x ∷ front) r back d = Differs-at p front r back d.1

-- An edit meets one row.
pub set_cut-at :
    (front : List BoundaryRow) (r : BoundaryRow) (back : List BoundaryRow) (c : Cut)
    → IsApart (places (front ++ r ∷ back))
    → map (set_cut (position r) c) (front ++ r ∷ back) ≡ front ++ with_cut c r ∷ back
set_cut-at [] r back c a =
    rw (same_place_refl (position r))
      (ap (◌∷◌ (with_cut c r)) (set_cut-Differs (position r) c back a.0))
set_cut-at (x ∷ front) r back c a =
    let apart : same_place (position r) (position x) ≡ false =
      same_place_comm (position r) (position x) ∙ Differs-at (position x) front r back a.0 in
    rw apart (ap (◌∷◌ x) (set_cut-at front r back c a.1))

-- The places of a list, with one element of it rewritten.
pub places-set :
    (front : List BoundaryRow) (r : BoundaryRow) (back : List BoundaryRow) (c : Cut)
    → places ((front ++ with_cut c r ∷ []) ++ back) ≡ places (front ++ r ∷ back)
places-set [] r back c = refl
places-set (x ∷ front) r back c = ap (◌∷◌ (position x)) (places-set front r back c)

-- The cubes of a list of places are there to be written.
pub count_at :
    (p : Position) (rows : List BoundaryRow)
    → In p (places rows)
    → (n : ℕ) × (length (keep (is_at p) rows) ≡ suc n)
count_at p [] m = absurd m
count_at p (r ∷ rows) m = elim (Bool-cases (is_at p r)) [
  | inl e ↦ (length (keep (is_at p) rows), rw e refl)
  | inr e ↦ rw e (count_at p rows (elsewhere m e))
]
  where
    elsewhere :
        (p ≡ position r) ⊎ In p (places rows)
        → same_place p (position r) ≡ false
        → In p (places rows)
    elsewhere (inl here) e =
        let met : same_place p (position r) ≡ true = rw here (same_place_refl (position r)) in
        ground (arith, met, e)
    elsewhere (inr m) e = m

pub places-set_cut :
    (p : Position) (c : Cut) (rows : List BoundaryRow)
    → places (map (set_cut p c) rows) ≡ places rows
places-set_cut p c [] = refl
places-set_cut p c (r ∷ rows) = ap₂ ◌∷◌ (position-set_cut p c r) (places-set_cut p c rows)

pub places-apply_edits :
    (edits : List Edit) (rows : List BoundaryRow) → places (apply_edits edits rows) ≡ places rows
unfolding apply_edits
places-apply_edits [] rows = refl
places-apply_edits ((p, c) ∷ edits) rows =
    places-apply_edits edits (map (set_cut p c) rows) ∙ places-set_cut p c rows

abbrev pub Places : List Edit → List BoundaryRow → Type 0
Places edits rows = All (λ e. In e.0 (places rows)) edits

abbrev pub affected : List Edit → List Position
affected = map (λ e. e.0)

-- The old cut that a transaction records for a cube.
abbrev pub prev_of : List BoundaryRow → Position → Option Cut
prev_of rows p = first_of (map cut_of (keep (is_at p) rows))

abbrev pub entry : Environment → Source → List BoundaryRow → Edit → HistoryRow
entry env source rows (p, c) = record {
  change_set_id = env.new_id;
  place = p;
  prev = or_no_cut (prev_of rows p);
  new = c;
  changed_at = env.now;
  source = source;
}

cuts_at-set_cut :
    (p q : Position) (c : Cut) (rows : List BoundaryRow)
    → same_place p q ≡ false
    → map cut_of (keep (is_at q) (map (set_cut p c) rows)) ≡ map cut_of (keep (is_at q) rows)
cuts_at-set_cut p q c [] h = refl
cuts_at-set_cut p q c (r ∷ rows) h = elim (Bool-cases (is_at p r)) [
  | inl e ↦
      let elsewhere : same_place q (position r) ≡ false =
        subst (λ x. same_place q x ≡ false) (same_place_sound p (position r) e)
          (same_place_comm q p ∙ h) in
      rw (e, elsewhere) (cuts_at-set_cut p q c rows h)
  | inr e ↦ elim (Bool-cases (is_at q r)) [
    | inl f ↦ rw (e, f) (ap (◌∷◌ (cut_of r)) (cuts_at-set_cut p q c rows h))
    | inr f ↦ rw (e, f) (cuts_at-set_cut p q c rows h)
  ]
]

entries-set_cut :
    (env : Environment) (source : Source) (p : Position) (c : Cut) (rows : List BoundaryRow)
    (edits : List Edit)
    → Differs p (affected edits)
    → map (entry env source (map (set_cut p c) rows)) edits ≡ map (entry env source rows) edits
entries-set_cut env source p c rows [] d = refl
entries-set_cut env source p c rows ((q, c') ∷ edits) d =
    ap₂ ◌∷◌
      (ap
        (λ l. record {
          change_set_id = env.new_id;
          place = q;
          prev = or_no_cut (first_of l);
          new = c';
          changed_at = env.now;
          source = source;
        })
        (cuts_at-set_cut p q c rows d.0))
      (entries-set_cut env source p c rows edits d.1)

-- The transaction of edits of known cubes is not aborted, leaves what its UPDATEs come to, and
-- records the old cuts where the edits are of different cubes.
pub write_edits-apply_edits :
    (env : Environment) (source : Source) (edits : List Edit) (db : Database)
    → Places edits db.boundaries
    → (db' : Database) × (write_edits env source edits db ≡ written db')
      × (db'.boundaries ≡ apply_edits edits db.boundaries)
      × (IsApart (affected edits)
          → db'.history ≡ db.history ++ map (entry env source db.boundaries) edits)
unfolding write_edits apply_edits write_edit write_and_record write_boundary write_history_row
    fetch_current_boundary
write_edits-apply_edits env source [] db known = (db, refl, refl, λ a. sym (append-nil db.history))
write_edits-apply_edits env source ((p, c) ∷ edits) db known =
    let (n, e) = count_at p db.boundaries known.0 in
    let known' : Places edits (map (set_cut p c) db.boundaries) =
      subst (λ (ps : List Position). All (λ d. In d.0 ps) edits)
        (sym (places-set_cut p c db.boundaries)) known.1 in
    let db₁ =
      write_history_row env env.new_id p (fetch_current_boundary p db) c source
        (write_boundary (p, c) db).1 in
    let (db', w, applied, logged) = write_edits-apply_edits env source edits db₁ known' in
    let first = entry env source db.boundaries (p, c) in
    (
      db',
      rw (write_edits, e) w,
      applied,
      λ a.
          logged a.1
          ∙ append_assoc db.history (first ∷ [])
              (map (entry env source (map (set_cut p c) db.boundaries)) edits)
          ∙ ap (λ l. db.history ++ first ∷ l)
              (entries-set_cut env source p c db.boundaries edits a.0),
    )
