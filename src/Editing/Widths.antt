-- ===== src/Editing/Widths.antt =====
-- `set_bin_overrides` of gruvax/api/admin/segments.py: the widths of a bin's labels, and the guard on
-- their sum.
pub mod Effective
use gruvax.Base.{
  ℕ, suc, ◌+◌, Bool, true, false, not, ◌&&◌, ◌||◌, ◌==◌, Option, none, some, List, [], ◌∷◌, map,
  Text, text_eq, if◌then◌else◌, length, any, keep, is_nil,
}
use gruvax.Base.Dict.{get, put, pop}
use gruvax.Base.Ratio.{Ratio, ratio, one, le, lt, sum, ◌+ℚ◌}
use gruvax.Unicode.{Unicode}
use gruvax.Normalize.{strip}
use gruvax.Boundaries.{Overrides, OverrideKey, override_key, key_eq}
use gruvax.Segments.Assign.{Position}
use gruvax.Segments.Bins.{SegmentBin}
use gruvax.Segments.Derive.{get_bin}
use gruvax.Editing.{
  Environment, Database, Profile, Outcome, answered, refused, Refusal, bin_not_found,
  phantom_override, override_sum_invalid, CachedResponse, overrides_response, announce,
}
use gruvax.Editing.Validation.{text_key}
use gruvax.Editing.Idempotency.{check_idempotency, store_idempotency, cleanup_idempotency}

-- A fraction of `none` clears the override.
pub record LabelOverride : Type 0 where
  pub label : Text
  pub fraction : Option Ratio

abbrev pub member : Text → List Text → Bool
member label labels = any (λ l. text_eq l label) labels

abbrev pub key_at : Position → Text → OverrideKey
key_at (unit_id, (row, col)) label = (unit_id, row, col, label)

-- The comprehension over the overrides, whose keys differ.
unfoldable pub bin_overrides : Position → List Text → Overrides → List (Text × Ratio)
bin_overrides p bin_labels [] = []
bin_overrides p bin_labels (((unit_id, row, col, label), fraction) ∷ items) =
    let rest = bin_overrides p bin_labels items in
    if key_eq (unit_id, row, col, label) (key_at p label) && member label bin_labels
    then (label, fraction) ∷ rest
    else rest

-- The rows of segment_overrides in a transaction, with the counts of the answer.
pub record Writes : Type 0 where
  pub rows : Overrides
  pub applied : ℕ
  pub cleared : ℕ

-- `result.rowcount > 0`.
abbrev count_cleared : ℕ → Overrides → ℕ
count_cleared n [] = n
count_cleared n (r ∷ rows) = suc n

-- One round of the loop of the guard.
unfoldable pub edit_effective : Text → Option Ratio → List (Text × Ratio) → List (Text × Ratio)
edit_effective key none effective = pop text_key key effective
edit_effective key (some fraction) effective = put text_key key fraction effective

-- `not (bin_labels - effective.keys())`.
abbrev pub all_overridden : List Text → List (Text × Ratio) → Bool
all_overridden bin_labels effective =
    not (any (λ l. not (member l (map (λ e. e.0) effective))) bin_labels)

-- `abs(total - 1.0) >= 1e-6`.
abbrev pub is_inexact : Ratio → Bool
is_inexact total = le (one +ℚ ratio 1 1000000) total || le (total +ℚ ratio 1 1000000) one

-- One DELETE or upsert.
unfoldable pub write_override : Position → Text → Option Ratio → Writes → Writes
write_override p key none w = record w {
  rows = pop override_key (key_at p key) w.rows;
  cleared = count_cleared w.cleared (keep (λ e. key_eq e.0 (key_at p key)) w.rows);
}
write_override p key (some fraction) w = record w {
  rows = put override_key (key_at p key) fraction w.rows;
  applied = suc w.applied;
}

abbrev pub bin_labels_of : SegmentBin → List Text
bin_labels_of b = map (λ s. s.label) b.segments

module _ (u : Unicode) where
  abbrev pub key_of : LabelOverride → Text
  key_of ov = u.casefold (strip u ov.label)

  unfoldable pub edit_all : List LabelOverride → List (Text × Ratio) → List (Text × Ratio)
  edit_all [] effective = effective
  edit_all (ov ∷ overrides) effective =
      edit_all overrides (edit_effective (key_of ov) ov.fraction effective)

  -- `effective` after the loop.
  unfoldable pub effective_overrides :
      Overrides → List LabelOverride → Position → List Text → List (Text × Ratio)
  effective_overrides current overrides p bin_labels =
      edit_all overrides (bin_overrides p bin_labels current)

  -- The guard: `override_sum` of an error.
  unfoldable pub validate_bin_override_sums :
      Overrides → List LabelOverride → Position → List Text → Option Ratio
  validate_bin_override_sums current overrides p bin_labels =
      let effective = effective_overrides current overrides p bin_labels in
      let total = sum (map (λ e. e.1) effective) in
      if is_nil effective
      then none
      else if lt (one +ℚ ratio 1 1000000000) total
      then some total
      else if all_overridden bin_labels effective && is_inexact total
      then some total
      else none

  -- The loop of the transaction.
  unfoldable pub write_overrides : Position → List LabelOverride → Writes → Writes
  write_overrides p [] w = w
  write_overrides p (ov ∷ overrides) w =
      write_overrides p overrides (write_override p (key_of ov) ov.fraction w)

  -- `phantom_labels`.
  unfoldable pub phantom_labels : List Text → List LabelOverride → List Text
  phantom_labels bin_labels overrides =
      map (λ ov. ov.label) (keep (λ ov. not (member (key_of ov) bin_labels)) overrides)

  -- The transaction, and what follows it.
  unfoldable pub commit_overrides :
      Environment
      → Option Text
      → Position
      → List LabelOverride
      → Profile
      → Outcome CachedResponse × Profile
  commit_overrides env key p overrides s =
      let w =
        write_overrides p overrides
          (record { rows = s.database.overrides; applied = 0; cleared = 0 }) in
      let response = overrides_response p w.applied w.cleared in
      let db =
        cleanup_idempotency env
          (store_idempotency env key response (record s.database { overrides = w.rows })) in
      announce u env (p ∷ [], none) response (record s { database = db })

  unfoldable pub sums_checked :
      Environment
      → Option Text
      → Position
      → List LabelOverride
      → Profile
      → Option Ratio
      → Outcome CachedResponse × Profile
  sums_checked env key p overrides s (some total) = (refused (override_sum_invalid total), s)
  sums_checked env key p overrides s none = commit_overrides env key p overrides s

  unfoldable pub labels_checked :
      Environment
      → Option Text
      → Position
      → List LabelOverride
      → Profile
      → List Text
      → List Text
      → Outcome CachedResponse × Profile
  labels_checked env key p overrides s bin_labels [] =
      sums_checked env key p overrides s
        (validate_bin_override_sums s.boundary_cache.overrides overrides p bin_labels)
  labels_checked env key p overrides s bin_labels (label ∷ labels) =
      (refused (phantom_override (label ∷ labels)), s)

  unfoldable pub with_bin :
      Environment
      → Option Text
      → Position
      → List LabelOverride
      → Profile
      → Option SegmentBin
      → Outcome CachedResponse × Profile
  with_bin env key p overrides s none = (refused (bin_not_found p), s)
  with_bin env key p overrides s (some b) =
      labels_checked env key p overrides s (bin_labels_of b)
        (phantom_labels (bin_labels_of b) overrides)

  unfoldable pub answer_overrides :
      Environment
      → Option Text
      → Position
      → List LabelOverride
      → Profile
      → Option CachedResponse
      → Outcome CachedResponse × Profile
  answer_overrides env key p overrides s (some response) = (answered response, s)
  answer_overrides env key (unit_id, (row, col)) overrides s none =
      with_bin env key (unit_id, (row, col)) overrides s (get_bin s.segment_cache unit_id row col)

  unfoldable pub set_bin_overrides :
      Environment
      → Option Text
      → Position
      → List LabelOverride
      → Profile
      → Outcome CachedResponse × Profile
  set_bin_overrides env key p overrides s =
      answer_overrides env key p overrides s (check_idempotency key s.database)
