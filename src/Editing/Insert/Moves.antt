-- ===== src/Editing/Insert/Moves.antt =====
-- An inserted cut takes its place in the sequence of cuts, and no other cut is lost.
use mathlib.Core.List.{append_assoc, map-append}
use gruvax.Base.{
  ◌≡◌, ◌≢◌, refl, sym, ap, subst, ◌∙◌, ℕ, zero, suc, Bool, true, false, some, List, [], ◌∷◌, ◌++◌,
  not, any, drop, take, map, All, In, keep, keep-append, In-map, map-In, take-drop, In-append,
  arith, if◌then◌else◌, inl,
}
use gruvax.Base.Sort.{In-sort_by, sort_by-IsSorted, sort_by_of_IsSorted}
use gruvax.Unicode.{Unicode}
use gruvax.Boundaries.{BoundaryRow}
use gruvax.Segments.Assign.{Position, position, position_order, shelf_order}
use gruvax.Editing.{
  Edit, Cut, Environment, Database, BoundaryChanged, announce, Profile, Refusal, cut_of, with_cut,
  cut_insert, written, write_edits,
}
use gruvax.Editing.Apart.{
  IsApart, Differs, affected, Places, places, apply_edits, set_cut-at, places-set,
  shelf_order-IsApart, shelf_order-apply_edits, write_edits-apply_edits,
}
use gruvax.Editing.Insert.{
  InsertCutBody, before, insertion_point, planned, plan_insert, shift, moved, insert_cut,
  after_write, carry_out,
}
use gruvax.Editing.Insert.Planned.{plan_insert-planned, rows_of, stripped}
use gruvax.Editing.Requests.{client_error, status_of}
use gruvax.Editing.Requests.Invariant.{IsFresh, announce-status, rebuild-database}

-- What the shift makes of the cubes that it passes.
shifted : Cut → List BoundaryRow → List BoundaryRow
shifted c [] = []
shifted c (nxt ∷ rows) =
    let rest = shifted (moved nxt) rows in with_cut c nxt ∷ (if nxt.is_empty then rows else rest)

apply_edits-shift :
    (c : Cut) (front back : List BoundaryRow)
    → IsApart (places (front ++ back))
    → apply_edits (shift c back) (front ++ back) ≡ front ++ shifted c back
unfolding apply_edits shift shifted
apply_edits-shift c front [] a = refl
apply_edits-shift c front (nxt ∷ back) a =
    ap (apply_edits (if nxt.is_empty then [] else shift (moved nxt) back))
      (set_cut-at front nxt back c a)
    ∙ rest nxt.is_empty (
        apply_edits-shift (moved nxt) (front ++ with_cut c nxt ∷ []) back
          (subst IsApart (sym (places-set front nxt back c)) a))
  where
    rest :
        (b : Bool)
        → apply_edits (shift (moved nxt) back) ((front ++ with_cut c nxt ∷ []) ++ back)
          ≡ (front ++ with_cut c nxt ∷ []) ++ shifted (moved nxt) back
        → apply_edits (if b then [] else shift (moved nxt) back) (front ++ with_cut c nxt ∷ back)
          ≡ front ++ with_cut c nxt ∷ (if b then back else shifted (moved nxt) back)
    rest true again = refl
    rest false again =
        ap (apply_edits (shift (moved nxt) back))
          (sym (append_assoc front (with_cut c nxt ∷ []) back))
        ∙ again
        ∙ append_assoc front (with_cut c nxt ∷ []) (shifted (moved nxt) back)

-- The cuts of the cubes that are not empty.
abbrev pub cuts : List BoundaryRow → List Cut
cuts rows = map cut_of (keep (λ r. not r.is_empty) rows)

cuts-filled :
    (r : BoundaryRow) (rows : List BoundaryRow)
    → r.is_empty ≡ false
    → cuts (r ∷ rows) ≡ cut_of r ∷ cuts rows
cuts-filled r rows h =
    ap
      (λ b.
        map cut_of
          (if not b then r ∷ keep (λ s. not s.is_empty) rows else keep (λ s. not s.is_empty) rows))
      h

cuts-empty :
    (r : BoundaryRow) (rows : List BoundaryRow) → r.is_empty ≡ true → cuts (r ∷ rows) ≡ cuts rows
cuts-empty r rows h =
    ap
      (λ b.
        map cut_of
          (if not b then r ∷ keep (λ s. not s.is_empty) rows else keep (λ s. not s.is_empty) rows))
      h

moved-cut_of : (r : BoundaryRow) → r.is_empty ≡ false → moved r ≡ cut_of r
moved-cut_of r h =
    ap
      (λ (b : Bool). record {
        first_label = r.first_label;
        first_catalog = r.first_catalog;
        is_empty = b;
      })
      (sym h)

cuts-shifted :
    (c : Cut) (rows : List BoundaryRow)
    → c.is_empty ≡ false
    → any (λ b. b.is_empty) rows ≡ true
    → cuts (shifted c rows) ≡ c ∷ cuts rows
unfolding shifted
cuts-shifted c [] filled free = ground arith
cuts-shifted c (nxt ∷ rows) filled free =
    cuts-filled (with_cut c nxt) (if nxt.is_empty then rows else shifted (moved nxt) rows) filled
    ∙ ap (◌∷◌ c) (rest nxt.is_empty refl (cuts-shifted (moved nxt) rows refl))
  where
    rest :
        (b : Bool)
        → nxt.is_empty ≡ b
        → (any (λ r. r.is_empty) rows ≡ true
            → cuts (shifted (moved nxt) rows) ≡ moved nxt ∷ cuts rows)
        → cuts (if b then rows else shifted (moved nxt) rows) ≡ cuts (nxt ∷ rows)
    rest true e again = sym (cuts-empty nxt rows e)
    rest false e again =
        let free' = sym (ap (λ b. if b then true else any (λ r. r.is_empty) rows) e) ∙ free in
        again free' ∙ ap (λ d. d ∷ cuts rows) (moved-cut_of nxt e) ∙ sym (cuts-filled nxt rows e)

cuts-append : (front back : List BoundaryRow) → cuts (front ++ back) ≡ cuts front ++ cuts back
cuts-append front back =
    ap (map cut_of) (keep-append _ front back)
    ∙ map-append cut_of (keep (λ r. not r.is_empty) front) (keep (λ r. not r.is_empty) back)

shift-Places : (c : Cut) (front back : List BoundaryRow) → Places (shift c back) (front ++ back)
unfolding shift
shift-Places c front [] = tt
shift-Places c front (nxt ∷ back) =
    (place nxt front back, rest nxt.is_empty (shift-Places (moved nxt) (front ++ nxt ∷ []) back))
  where
    place :
        (r : BoundaryRow) (front back : List BoundaryRow)
        → In (position r) (places (front ++ r ∷ back))
    place r front back =
        map-In position r (front ++ r ∷ back) (In-append r front (r ∷ back) (inl refl))

    rest :
        (b : Bool)
        → Places (shift (moved nxt) back) ((front ++ nxt ∷ []) ++ back)
        → Places (if b then [] else shift (moved nxt) back) (front ++ nxt ∷ back)
    rest true again = tt
    rest false again =
        subst (Places (shift (moved nxt) back)) (append_assoc front (nxt ∷ []) back) again

All-map :
    {A : Type 0} {P Q : A → Type 0} (xs : List A) → ((a : A) → P a → Q a) → All P xs → All Q xs
All-map [] f h = tt
All-map (x ∷ xs) f h = (f x h.0, All-map xs f h.1)

Places-shelf_order :
    (edits : List Edit) (rows : List BoundaryRow)
    → Places edits (shelf_order rows)
    → Places edits rows
unfolding shelf_order
Places-shelf_order edits rows = All-map edits (λ (e : Edit) m. unsorted e.0 m)
  where
    unsorted : (p : Position) → In p (places (shelf_order rows)) → In p (places rows)
    unsorted p m =
        let (r, n, e) = In-map position p (shelf_order rows) m in
        subst (λ q. In q (places rows)) (sym e)
          (map-In position r rows (In-sort_by position_order position r rows n))

shelf_order_idem : (rows : List BoundaryRow) → shelf_order (shelf_order rows) ≡ shelf_order rows
unfolding shelf_order
shelf_order_idem rows =
    sort_by_of_IsSorted position_order position (shelf_order rows)
      (sort_by-IsSorted position_order position rows)

-- The UPDATEs of a shift, on a table whose places are apart.
shift_table :
    (c : Cut) (i : ℕ) (rows : List BoundaryRow)
    → c.is_empty ≡ false
    → any (λ b. b.is_empty) (drop i (shelf_order rows)) ≡ true
    → IsApart (places rows)
    → cuts (shelf_order (apply_edits (shift c (drop i (shelf_order rows))) rows))
      ≡ cuts (take i (shelf_order rows)) ++ c ∷ cuts (drop i (shelf_order rows))
shift_table c i rows filled free apart =
    let bs = shelf_order rows in
    let front = take i bs in
    let back = drop i bs in
    let apart' : IsApart (places (front ++ back)) =
      subst (λ (l : List BoundaryRow). IsApart (places l)) (sym (take-drop i bs))
        (shelf_order-IsApart rows apart) in
    ap cuts (
      shelf_order-apply_edits (shift c back) rows
      ∙ ap (apply_edits (shift c back)) (sym (take-drop i bs))
      ∙ apply_edits-shift c front back apart')
    ∙ cuts-append front (shifted c back)
    ∙ ap (λ l. cuts front ++ l) (cuts-shifted c back filled free)

pub shift_known :
    (c : Cut) (i : ℕ) (rows : List BoundaryRow) → Places (shift c (drop i (shelf_order rows))) rows
shift_known c i rows = Places-shelf_order _ rows (
    subst (Places (shift c (drop i (shelf_order rows)))) (take-drop i (shelf_order rows))
      (shift-Places c (take i (shelf_order rows)) (drop i (shelf_order rows))))

shift-Differs :
    (p : Position) (c : Cut) (rows : List BoundaryRow)
    → Differs p (places rows)
    → Differs p (affected (shift c rows))
unfolding shift
shift-Differs p c [] d = tt
shift-Differs p c (r ∷ rows) d = (d.0, rest r.is_empty (shift-Differs p (moved r) rows d.1))
  where
    rest :
        (b : Bool)
        → Differs p (affected (shift (moved r) rows))
        → Differs p (affected (if b then [] else shift (moved r) rows))
    rest true h = tt
    rest false h = h

-- The cubes of a shift are different.
pub shift-IsApart :
    (c : Cut) (rows : List BoundaryRow) → IsApart (places rows) → IsApart (affected (shift c rows))
unfolding shift
shift-IsApart c [] a = tt
shift-IsApart c (r ∷ rows) a =
    rest r.is_empty (shift-Differs (position r) (moved r) rows a.0)
      (shift-IsApart (moved r) rows a.1)
  where
    rest :
        (b : Bool)
        → Differs (position r) (affected (shift (moved r) rows))
        → IsApart (affected (shift (moved r) rows))
        → IsApart (position r ∷ affected (if b then [] else shift (moved r) rows))
    rest true d a = (tt, tt)
    rest false d a = (d, a)

pub drop-IsApart :
    (n : ℕ) (rows : List BoundaryRow) → IsApart (places rows) → IsApart (places (drop n rows))
drop-IsApart zero rows a = a
drop-IsApart (suc n) [] a = tt
drop-IsApart (suc n) (r ∷ rows) a = drop-IsApart n rows a.1

module _ (u : Unicode) where
  -- The cascade of a planned insert.
  pub planned_shift :
      (body : InsertCutBody) (s : Profile) (cascade : List Edit) (i : ℕ) (p : Position)
      → IsFresh s
      → plan_insert u body s ≡ planned cascade
      → insertion_point body.after (shelf_order s.database.boundaries) ≡ before i p
      → (cascade ≡ shift (stripped u body) (drop i (shelf_order s.database.boundaries)))
        × (any (λ b. b.is_empty) (drop i (shelf_order s.database.boundaries)) ≡ true)
  planned_shift body s cascade i p fresh plan point =
      let rows = s.database.boundaries in
      let ordered : rows_of u s ≡ shelf_order rows = ap shelf_order fresh ∙ shelf_order_idem rows in
      let point' = subst (λ bs. insertion_point body.after bs ≡ before i p) (sym ordered) point in
      let (same_cascade, free) = plan_insert-planned u body s cascade i p plan point' in
      (
        same_cascade ∙ ap (λ bs. shift (stripped u body) (drop i bs)) ordered,
        subst (λ bs. any (λ b. b.is_empty) (drop i bs) ≡ true) ordered free,
      )

  -- Its transaction.
  inserted :
      (env : Environment) (body : InsertCutBody) (s : Profile) (cascade : List Edit) (i : ℕ)
      (p : Position)
      → IsFresh s
      → IsApart (places s.database.boundaries)
      → plan_insert u body s ≡ planned cascade
      → insertion_point body.after (shelf_order s.database.boundaries) ≡ before i p
      → (db : Database) × (write_edits env cut_insert cascade s.database ≡ written db)
        × (cuts (shelf_order db.boundaries)
            ≡ cuts (take i (shelf_order s.database.boundaries))
              ++ stripped u body ∷ cuts (drop i (shelf_order s.database.boundaries)))
  inserted env body s cascade i p fresh apart plan point =
      let rows = s.database.boundaries in
      let c = stripped u body in
      let (cascade_is, free) = planned_shift body s cascade i p fresh plan point in
      let (db, w, applied, logged) =
        write_edits-apply_edits env cut_insert cascade s.database
          (subst (λ (es : List Edit). Places es rows) (sym cascade_is) (shift_known c i rows)) in
      (
        db,
        w,
        ap (λ l. cuts (shelf_order l)) (applied ∙ ap (λ es. apply_edits es rows) cascade_is)
            ∙ shift_table c i rows refl free apart,
      )

  pub announced-database :
      {A : Type 0} (env : Environment) (event : BoundaryChanged) (answer : A) (s : Profile)
      → (announce u env event answer s).1.database ≡ s.database
  unfolding announce
  announced-database env event answer s = rebuild-database u env s

  pub carried :
      (env : Environment) (body : InsertCutBody) (s : Profile) (cascade : List Edit) (db : Database)
      → plan_insert u body s ≡ planned cascade
      → write_edits env cut_insert cascade s.database ≡ written db
      → insert_cut u env body s
        ≡ announce u env
            (affected cascade, some env.new_id)
            (affected cascade)
            (record s { database = db })
  unfolding insert_cut carry_out after_write
  carried env body s cascade db plan w =
      ap (carry_out u env s) plan ∙ ap (after_write u env cascade s) w

  -- Where the checks of an insert pass, the cubes have places of their own and the cache is fresh, the
  -- request is not refused any more. The cuts of the filled cubes, in shelf order, are then those of the
  -- cubes as far as the one to insert after, the new cut, and those of the cubes behind it: none is lost.
  pub insert_cut-moves :
      (env : Environment) (body : InsertCutBody) (s : Profile) (cascade : List Edit) (i : ℕ)
      (p : Position)
      → IsFresh s
      → IsApart (places s.database.boundaries)
      → plan_insert u body s ≡ planned cascade
      → insertion_point body.after (shelf_order s.database.boundaries) ≡ before i p
      → ((r : Refusal) → status_of (insert_cut u env body s).0 ≢ client_error r)
        × (cuts (shelf_order (insert_cut u env body s).1.database.boundaries)
            ≡ cuts (take i (shelf_order s.database.boundaries))
              ++ stripped u body ∷ cuts (drop i (shelf_order s.database.boundaries)))
  insert_cut-moves env body s cascade i p fresh apart plan point =
      let (db, w, moves) = inserted env body s cascade i p fresh apart plan point in
      let is_answer = carried env body s cascade db plan w in
      (
        λ r h.
            announce-status u env (affected cascade, some env.new_id) (affected cascade)
              (record s { database = db }) r (ap (λ o. status_of o.0) (sym is_answer) ∙ h),
        ap (λ o. cuts (shelf_order o.1.database.boundaries)) is_answer
            ∙ ap (λ d. cuts (shelf_order d.boundaries))
                (announced-database env (affected cascade, some env.new_id) (affected cascade)
                  (record s { database = db }))
            ∙ moves,
      )
