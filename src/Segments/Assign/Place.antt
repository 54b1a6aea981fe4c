-- ===== src/Segments/Assign/Place.antt =====
-- What the loop that appends each record to its bin leaves in the bins.
use mathlib.Core.List.{append_assoc, append-nil}
use gruvax.Base.{
  ℕ, suc, zero, ◌<◌, ◌≡◌, ◌==◌, refl, Bool, true, false, Option, none, some, List, [], ◌∷◌, ◌++◌,
  map, if◌then◌else◌, arith, get_elem?, keep, length, inl, inr, Bool-cases, ap, ◌∙◌,
}
use gruvax.Unicode.{Unicode}
use gruvax.Snapshot.{RecordRow, ByLabel}
use gruvax.Boundaries.{BoundaryRow}
use gruvax.Segments.Assign.{
  append_at, append_assigned, assigned_bin, place_records, global_records, bin_records,
}

abbrev pub is_bin : ℕ → Option ℕ → Bool
is_bin i none = false
is_bin i (some j) = j == i

abbrev pub is_some : Option ℕ → Bool
is_some none = false
is_some (some j) = true

abbrev Bins : Type 0
Bins = List (List RecordRow)

append_at-get :
    (i j : ℕ) (r : RecordRow) (bins : Bins) {b : List RecordRow}
    → get_elem? bins j ≡ some b
    → get_elem? (append_at i r bins) j ≡ some (if i == j then b ++ r ∷ [] else b)
unfolding append_at
append_at-get i j r [] h = absurd (cc)
append_at-get zero zero r (c ∷ bins) h = ground arith
append_at-get zero (suc j) r (c ∷ bins) h = ground arith
append_at-get (suc i) zero r (c ∷ bins) h = ground arith
append_at-get (suc i) (suc j) r (c ∷ bins) h = ground (arith, append_at-get i j r bins h)

append_assigned-get :
    (a : Option ℕ) (j : ℕ) (r : RecordRow) (bins : Bins) {b : List RecordRow}
    → get_elem? bins j ≡ some b
    → get_elem? (append_assigned a r bins) j ≡ some (if is_bin j a then b ++ r ∷ [] else b)
unfolding append_assigned
append_assigned-get none j r bins h = h
append_assigned-get (some i) j r bins h = append_at-get i j r bins h

get-map_nil :
    (rows : List BoundaryRow) (i : ℕ)
    → i < length rows
    → get_elem? (map (λ _. []) rows) i ≡ some (let l : List RecordRow = [] in l)
get-map_nil [] i h = elim h [ ]
get-map_nil (r ∷ rows) zero h = refl
get-map_nil (r ∷ rows) (suc i) h = get-map_nil rows i (omega arith)

module _ (u : Unicode) (rows : List BoundaryRow) where
  -- The record belongs in bin `i`.
  abbrev pub goes_to : ℕ → RecordRow → Bool
  goes_to i r = is_bin i (assigned_bin u rows r)

  step_keep :
      (i : ℕ) (r : RecordRow) (records b : List RecordRow)
      → (if goes_to i r then b ++ r ∷ [] else b) ++ keep (goes_to i) records
        ≡ b ++ keep (goes_to i) (r ∷ records)
  step_keep i r records b = elim (Bool-cases (goes_to i r)) [
    | inl e ↦ rw e (append_assoc b (r ∷ []) (keep (goes_to i) records))
    | inr e ↦ rw e refl
  ]

  place_records-get :
      (i : ℕ) (records : List RecordRow) (bins : Bins) {b : List RecordRow}
      → get_elem? bins i ≡ some b
      → get_elem? (place_records u rows records bins) i ≡ some (b ++ keep (goes_to i) records)
  unfolding place_records
  place_records-get i [] bins h = rw append-nil h
  place_records-get i (r ∷ records) bins {b} h =
      place_records-get i records (append_assigned (assigned_bin u rows r) r bins)
        (append_assigned-get (assigned_bin u rows r) i r bins h)
      ∙ ap some (step_keep i r records b)

  -- A bin holds exactly the records that are assigned to it, in global key order.
  pub bin_records-get :
      (by_label : ByLabel) (i : ℕ)
      → i < length rows
      → get_elem? (bin_records u rows by_label) i
        ≡ some (keep (goes_to i) (global_records u by_label))
  unfolding bin_records
  bin_records-get by_label i h =
      place_records-get i (global_records u by_label) (map (λ _. []) rows) (get-map_nil rows i h)
