-- ===== src/Segments/Fractions.antt =====
-- Steps 4 and 5 of `SegmentCache.derive` (gruvax/estimator/segment_cache.py): how the labels of one
-- bin share its width. A share is one label of `ordered_labels`, with its row count and its override.
pub mod Sum
pub mod Total
use gruvax.Base.{
  ℕ, ◌+◌, ◌==◌, ltb, ◌^◌, if◌then◌else◌, Bool, true, false, ◌&&◌, ◌||◌, Option, none, some, List,
  [], ◌∷◌, map, is_nil,
}
use gruvax.Base.Ratio.{Ratio, ratio, zero_r, one, ◌-ℚ◌, ◌*ℚ◌, ◌/ℚ◌, lt, le, distance, sum}

-- One label: its row count and, where there is one, its override.
abbrev pub Share : Type 0
Share = ℕ × Option Ratio

-- `active_overrides.values()`, in the order of the labels.
unfoldable pub active_widths : List Share → List Ratio
active_widths [] = []
active_widths ((count, none) ∷ l) = active_widths l
active_widths ((count, some q) ∷ l) = q ∷ active_widths l

-- `non_overridden_total`.
pub other_total : List Share → ℕ
other_total [] = 0
other_total ((count, none) ∷ l) = count + other_total l
other_total ((count, some q) ∷ l) = other_total l

-- `auto_fractions[lk]`.
unfoldable pub auto_fraction : ℕ → Share → Ratio
auto_fraction bin_total (count, _) = ratio count 1 /ℚ ratio bin_total 1

-- A label's width when no label can absorb the remainder.
pub rescaled : Ratio → Share → Ratio
rescaled scale (count, none) = zero_r *ℚ scale
rescaled scale (count, some q) = q *ℚ scale

-- A label's width when the others split the remainder by their counts.
pub spread : Ratio → ℕ → Share → Ratio
spread remaining total (count, none) =
    if ltb 0 total then remaining *ℚ (ratio count 1 /ℚ ratio total 1) else zero_r
spread remaining total (count, some q) = q

-- `no_absorber`: `remaining < 0.0` is `1.0 < overridden_sum`.
pub no_absorber : ℕ → Ratio → Bool
no_absorber total overridden_sum = total == 0 || lt one overridden_sum

-- `applied_fractions`.
unfoldable pub applied_fractions : ℕ → List Share → List Ratio
unfolding rescaled spread no_absorber auto_fraction
applied_fractions bin_total shares =
    let overridden_sum = sum (active_widths shares) in
    let total = other_total shares in
    if is_nil (active_widths shares)
    then map (auto_fraction bin_total) shares
    else if no_absorber total overridden_sum && lt zero_r overridden_sum
    then map (rescaled (one /ℚ overridden_sum)) shares
    else map (spread (one -ℚ overridden_sum) total) shares

-- The check that the source makes of the widths: `none` is its `ValueError`.
unfoldable pub checked_fractions : ℕ → List Share → Option (List Ratio)
checked_fractions bin_total shares =
    let applied = applied_fractions bin_total shares in
    if le (ratio 1 (10 ^ 6)) (distance (sum applied) one) then none else some applied
