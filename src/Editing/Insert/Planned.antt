-- ===== src/Editing/Insert/Planned.antt =====
-- What the checks of `insert_cut` have found when they let a cut in.
use gruvax.Base.{
  ◌≡◌, refl, sym, ap, ℕ, suc, Bool, true, false, Option, none, some, List, [], ◌∷◌, any, drop,
  find_index, arith, if◌then◌else◌, Text,
}
use gruvax.Unicode.{Unicode}
use gruvax.Normalize.{strip}
use gruvax.Boundaries.{BoundaryRow}
use gruvax.Segments.Assign.{Position, shelf_order}
use gruvax.Editing.{
  Edit, Cut, Profile, is_at, contiguity_error, shelf_overflow, empty_bin, phantom_boundary,
}
use gruvax.Editing.Validation.{
  new_cut, no_free_cube, overflows, overflow_after, validate_shelf_overflow,
  validate_cascade_contiguity,
}
use gruvax.Editing.Insert.{
  InsertCutBody, InsertionPoint, unknown, before, insertion_point, at_index, Plan, rejected,
  index_error, planned, plan_insert, check_point, check_cascade, cascade_cubes, shift,
}

has_free_cube :
    (rows : List BoundaryRow) → no_free_cube rows ≡ false → any (λ b. b.is_empty) rows ≡ true
has_free_cube rows h = ground arith

index_of : InsertionPoint → ℕ
index_of (unknown r) = 0
index_of (before i p) = i

-- The overflow check looks at the cubes from the insertion point.
overflows-free :
    (after : Option Position) (rows : List BoundaryRow) (i : ℕ) (p : Position)
    → insertion_point after rows ≡ before i p
    → overflows after rows ≡ false
    → any (λ b. b.is_empty) (drop i rows) ≡ true
unfolding insertion_point overflows index_of at_index overflow_after
overflows-free none [] i p point h = ground arith
overflows-free none (b ∷ rows) i p point h =
    let first : 0 ≡ i = ap index_of point in rw (sym first) (has_free_cube (b ∷ rows) h)
overflows-free (some after) rows i p point h = found (find_index (is_at after) rows) point h
  where
    found :
        (index : Option ℕ)
        → at_index after index ≡ before i p
        → overflow_after rows index ≡ false
        → any (λ b. b.is_empty) (drop i rows) ≡ true
    found none point h = ground arith
    found (some j) point h =
        let next : suc j ≡ i = ap index_of point in
        rw (sym next) (has_free_cube (drop (suc j) rows) h)

cascade_of : Plan → List Edit
cascade_of (rejected r) = []
cascade_of index_error = []
cascade_of (planned cascade) = cascade

module _ (u : Unicode) where
  check_cascade-planned :
      (s : Profile) (c : Cut) (rows : List BoundaryRow) (cascade : List Edit)
      → check_cascade u s (cascade_cubes c rows) ≡ planned cascade
      → cascade ≡ shift c rows
  unfolding check_cascade cascade_cubes cascade_of
  check_cascade-planned s c [] cascade h = ground arith
  check_cascade-planned s c (r ∷ rows) cascade h =
      checked (validate_cascade_contiguity u s.boundary_cache (shift c (r ∷ rows))) h
    where
      checked :
          (error : Option Text)
          → elim error [
            | none ↦ planned (shift c (r ∷ rows))
            | some label ↦ rejected (contiguity_error label)
          ]
            ≡ planned cascade
          → cascade ≡ shift c (r ∷ rows)
      checked none h = sym (ap cascade_of h)
      checked (some label) h = ground arith

  abbrev pub rows_of : Profile → List BoundaryRow
  rows_of s = shelf_order s.boundary_cache.rows

  abbrev pub stripped : InsertCutBody → Cut
  stripped body = new_cut (strip u body.new_first_label) (strip u body.new_first_catalog)

  point-planned :
      (body : InsertCutBody) (s : Profile) (cascade : List Edit) (i : ℕ) (p : Position)
      → check_point u body s (before i p) ≡ planned cascade
      → (cascade ≡ shift (stripped body) (drop i (rows_of s)))
        × (overflows body.after (rows_of s) ≡ false)
  unfolding check_point validate_shelf_overflow
  point-planned body s cascade i p h = checked (overflows body.after (rows_of s)) _ h
    where
      checked :
          (overflow empty : Bool)
          → (if overflow
              then rejected shelf_overflow
              else if empty
              then rejected empty_bin
              else check_cascade u s (cascade_cubes (stripped body) (drop i (rows_of s))))
            ≡ planned cascade
          → (cascade ≡ shift (stripped body) (drop i (rows_of s))) × (overflow ≡ false)
      checked true empty h = ground arith
      checked false true h = ground arith
      checked false false h = (check_cascade-planned s _ (drop i (rows_of s)) cascade h, refl)

  -- A planned cascade is the shift from the insertion point, and there is an empty cube in its way.
  pub plan_insert-planned :
      (body : InsertCutBody) (s : Profile) (cascade : List Edit) (i : ℕ) (p : Position)
      → plan_insert u body s ≡ planned cascade
      → insertion_point body.after (rows_of s) ≡ before i p
      → (cascade ≡ shift (stripped body) (drop i (rows_of s)))
        × (any (λ b. b.is_empty) (drop i (rows_of s)) ≡ true)
  unfolding plan_insert
  plan_insert-planned body s cascade i p h point = checked _ h
    where
      checked :
          (phantom : Bool)
          → (if phantom
              then rejected phantom_boundary
              else check_point u body s (insertion_point body.after (rows_of s)))
            ≡ planned cascade
          → (cascade ≡ shift (stripped body) (drop i (rows_of s)))
            × (any (λ b. b.is_empty) (drop i (rows_of s)) ≡ true)
      checked true h = ground arith
      checked false h =
          let (same_cascade, free) = point-planned body s cascade i p (rw point at h) in
          (same_cascade, overflows-free body.after (rows_of s) i p point free)
