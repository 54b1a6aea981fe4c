-- ===== src/Segments/Fractions/Total.antt =====
-- The widths that step 5 of `derive` gives to the labels of a bin add up to one.
use native.Mathlib.Nat.{mul-pos}
use gruvax.Base.{
  ℕ, ◌+◌, ◌-◌, ◌*◌, ◌<◌, ◌≤◌, ◌^◌, ◌≡◌, ap, inl, inr, true, false, Bool-cases, some, List, map, All,
  is_nil, arith, length, length-map, ◌&&◌,
}
use gruvax.Base.Ratio.{Ratio, zero_r, one, ◌-ℚ◌, ◌/ℚ◌, ◌≈◌, IsProper, IsPositive, sum, sum_from, lt}
use gruvax.Base.Ratio.Sum.{mul_cancel, distance_zero}
use gruvax.Segments.Fractions.{
  Share, active_widths, other_total, auto_fraction, rescaled, spread, no_absorber,
  applied_fractions, checked_fractions,
}
use gruvax.Segments.Fractions.Sum.{
  count_total, WidthIsPositive, sum-auto, sum-rescaled, sum-spread, Scaled-start, Split-start,
  sum-IsPositive,
}

-- `r` is the number one.
pub record IsOne (r : Ratio) : Type 0 where
  pub same : r ≈ one
  pub proper : IsProper r

auto-IsOne :
    (t : ℕ) (l : List Share) → 0 < t → t ≡ count_total l → IsOne (sum (map (auto_fraction t) l))
unfolding sum
auto-IsOne t l h e =
    let v = sum-auto t 0 zero_r l h (record { same = omega arith; proper = omega arith }) in
    let r = sum_from zero_r (map (auto_fraction t) l) in
    record {
      same =
          omega (
            arith,
            mul_cancel t r.num r.den h (omega (arith, v.same, ap (λ (k : ℕ). k * r.den) e)),
          );
      proper = v.proper;
    }

-- The last step of `spread-IsOne`, on the numbers alone.
spread_cancel :
    (o d t n m : ℕ)
    → o ≤ d
    → n * (d * (1 * d * t)) ≡ (o * (1 * d * t) + (1 * d - o * 1) * (0 + t) * d) * m
    → n * (d * (d * t)) ≡ m * (d * (d * t))
spread_cancel o d t n m fits e =
    let whole : 1 * d - o * 1 + o ≡ d = omega arith in
    omega (arith, e, ap (λ (k : ℕ). k * (d * (t * m))) whole)

rescaled-IsOne :
    (l : List Share)
    → All WidthIsPositive l
    → is_nil (active_widths l) ≡ false
    → IsOne (sum (map (rescaled (one /ℚ sum (active_widths l))) l))
unfolding sum
rescaled-IsOne l w h =
    let p = sum-IsPositive l w h in
    let o = sum (active_widths l) in
    let k = one /ℚ o in
    let r = sum_from zero_r (map (rescaled k) l) in
    let v = sum-rescaled k (omega (arith, p.0)) zero_r zero_r l w (Scaled-start k) in
    record {
      same =
          omega (
            arith,
            mul_cancel (o.den * o.num) r.num r.den (mul-pos p.1 p.0) (omega (arith, v.same)),
          );
      proper = v.proper;
    }

-- What is left after the overrides, split by the counts of the other labels.
spread-IsOne :
    (l : List Share)
    → All WidthIsPositive l
    → is_nil (active_widths l) ≡ false
    → 0 < other_total l
    → (sum (active_widths l)).num ≤ (sum (active_widths l)).den
    → IsOne (sum (map (spread (one -ℚ sum (active_widths l)) (other_total l)) l))
unfolding sum
spread-IsOne l w h t_pos fits =
    let p = sum-IsPositive l w h in
    let o = sum (active_widths l) in
    let t = other_total l in
    let k = one -ℚ o in
    let r = sum_from zero_r (map (spread k t) l) in
    let v = sum-spread k (omega (arith, p.1)) t t_pos zero_r zero_r 0 l w (Split-start k t) in
    record {
      same = omega (
        arith,
        mul_cancel (o.den * (o.den * t)) r.num r.den (mul-pos p.1 (mul-pos p.1 t_pos))
            (spread_cancel o.num o.den t r.num r.den fits v.same),
      );
      proper = v.proper;
    }

pos_r : {o : Ratio} → IsPositive o → lt zero_r o ≡ true
pos_r p = ground arith

-- Where there is a label to absorb a remainder that is not negative, the widths are spread.
absorbs : (n : ℕ) (o : Ratio) → no_absorber n o ≡ false → (0 < n) × (o.num ≤ o.den)
unfolding no_absorber
absorbs n o h = ground arith

applied-IsOne :
    (t : ℕ) (l : List Share)
    → 0 < t
    → t ≡ count_total l
    → All WidthIsPositive l
    → IsOne (sum (applied_fractions t l))
unfolding applied_fractions
applied-IsOne t l h e w = elim (Bool-cases (is_nil (active_widths l))) [
  | inl n ↦ rw n (auto-IsOne t l h e)
  | inr n ↦
      let p = sum-IsPositive l w n in
      elim (Bool-cases (no_absorber (other_total l) (sum (active_widths l)))) [
        | inl a ↦ rw (n, a, pos_r p) (rescaled-IsOne l w n)
        | inr a ↦ rw (n, a) (let c = absorbs _ _ a in spread-IsOne l w n c.0 c.1)
      ]
]

-- For labels with a record at least, all of whose overrides are positive, the source's own check, within
-- 1e-6, passes.
pub checked_fractions_total :
    (t : ℕ) (l : List Share)
    → 0 < t
    → t ≡ count_total l
    → All WidthIsPositive l
    → (checked_fractions t l ≡ some (applied_fractions t l)) × IsOne (sum (applied_fractions t l))
unfolding checked_fractions
checked_fractions_total t l h e w =
    let v = applied-IsOne t l h e w in
    (rw (distance_zero (sum (applied_fractions t l)) (10 ^ 6) v.proper v.same), v)

-- As many widths as labels.
pub length-applied_fractions : (t : ℕ) (l : List Share) → length (applied_fractions t l) ≡ length l
unfolding applied_fractions
length-applied_fractions t l = elim (Bool-cases (is_nil (active_widths l))) [
  | inl n ↦ rw n (length-map (auto_fraction t) l)
  | inr n ↦
      elim (Bool-cases (
        no_absorber (other_total l) (sum (active_widths l)) && lt zero_r (sum (active_widths l)))) [
          | inl a ↦ rw (n, a) (length-map _ l)
          | inr a ↦ rw (n, a) (length-map _ l)
        ]
]
