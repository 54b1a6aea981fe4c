-- ===== src/Segments/Fractions/Sum.antt =====
-- The widths of a bin's labels sum to one, on every branch, so the source's check never fails.
use native.Mathlib.Nat.{mul-pos}
use gruvax.Base.{
  ℕ, ◌+◌, ◌*◌, ◌<◌, ◌≤◌, ◌≡◌, ap, true, false, none, some, List, [], ◌∷◌, map, All, is_nil, arith,
  ltb,
}
use gruvax.Base.Ratio.{Ratio, ratio, zero_r, ◌+ℚ◌, ◌*ℚ◌, ◌/ℚ◌, IsPositive, sum, sum_from}
use gruvax.Base.Ratio.Sum.{Over, Over-add}
use gruvax.Segments.Fractions.{Share, active_widths, other_total, auto_fraction, rescaled, spread}

-- The rows of a bin, label by label.
unfoldable pub count_total : List Share → ℕ
count_total [] = 0
count_total ((count, w) ∷ l) = count + count_total l

-- An override is a positive fraction, as the database and the API demand.
abbrev pub WidthIsPositive : Share → Type 0
WidthIsPositive (count, none) = Unit
WidthIsPositive (count, some q) = IsPositive q

auto-Over : (t : ℕ) (s : Share) → 0 < t → Over (auto_fraction t s) s.0 t
unfolding auto_fraction
auto-Over t (c, w) h = record { same = omega arith; proper = omega arith }

pub sum-auto :
    (t n : ℕ) (acc : Ratio) (l : List Share)
    → 0 < t
    → Over acc n t
    → Over (sum_from acc (map (auto_fraction t) l)) (n + count_total l) t
unfolding sum_from count_total
sum-auto t n acc [] h v = record { same = omega (arith, v.same); proper = v.proper }
sum-auto t n acc ((c, w) ∷ l) h v =
    let f = auto_fraction t (c, w) in
    let step = sum-auto t (n + c) (acc +ℚ f) l h (Over-add acc f n c t v (auto-Over t (c, w) h)) in
    record { same = omega (arith, step.same); proper = step.proper }

-- The running sum of the widths so far, `acc`, against that of the overrides, `o`, times the scale.
pub record Scaled (acc o scale : Ratio) : Type 0 where
  pub same : acc.num * (o.den * scale.den) ≡ o.num * scale.num * acc.den
  pub proper : 0 < acc.den
  pub o_proper : 0 < o.den

module _ (scale : Ratio) (k_proper : 0 < scale.den) where
  Scaled-none : (acc o : Ratio) → Scaled acc o scale → Scaled (acc +ℚ zero_r *ℚ scale) o scale
  Scaled-none acc o v = record {
    same = omega (arith, ap (λ (t : ℕ). t * scale.den) v.same);
    proper = grind (arith, mul-pos v.proper k_proper);
    o_proper = v.o_proper;
  }

  Scaled-some :
      (acc o q : Ratio)
      → IsPositive q
      → Scaled acc o scale
      → Scaled (acc +ℚ q *ℚ scale) (o +ℚ q) scale
  Scaled-some acc o q p v = record {
    same = omega (arith, ap (λ (t : ℕ). t * (scale.den * (q.den * q.den))) v.same);
    proper = mul-pos v.proper (mul-pos p.1 k_proper);
    o_proper = mul-pos v.o_proper p.1;
  }

  pub sum-rescaled :
      (acc o : Ratio) (l : List Share)
      → All WidthIsPositive l
      → Scaled acc o scale
      → Scaled (sum_from acc (map (rescaled scale) l)) (sum_from o (active_widths l)) scale
  unfolding sum_from active_widths rescaled
  sum-rescaled acc o [] w v = v
  sum-rescaled acc o ((c, none) ∷ l) w v =
      sum-rescaled (acc +ℚ zero_r *ℚ scale) o l w.1 (Scaled-none acc o v)
  sum-rescaled acc o ((c, some q) ∷ l) w v =
      sum-rescaled (acc +ℚ q *ℚ scale) (o +ℚ q) l w.1 (Scaled-some acc o q w.0 v)

-- The running sum `acc` is that of the overrides plus the part `n / t` of the remainder `r`.
pub record Split (acc o r : Ratio) (n t : ℕ) : Type 0 where
  pub same : acc.num * (o.den * (r.den * t)) ≡ (o.num * (r.den * t) + r.num * n * o.den) * acc.den
  pub proper : 0 < acc.den
  pub o_proper : 0 < o.den

module _ (r : Ratio) (r_proper : 0 < r.den) (t : ℕ) (t_pos : 0 < t) where
  Split-none :
      (acc o : Ratio) (n c : ℕ)
      → Split acc o r n t
      → Split (acc +ℚ r *ℚ (ratio c 1 /ℚ ratio t 1)) o r (n + c) t
  Split-none acc o n c v = record {
    same = omega (arith, ap (λ (k : ℕ). k * (r.den * t)) v.same);
    proper = grind (arith, mul-pos v.proper (mul-pos r_proper t_pos));
    o_proper = v.o_proper;
  }

  Split-some :
      (acc o q : Ratio) (n : ℕ) → IsPositive q → Split acc o r n t → Split (acc +ℚ q) (o +ℚ q) r n t
  Split-some acc o q n p v = record {
    same = omega (arith, ap (λ (k : ℕ). k * (q.den * q.den)) v.same);
    proper = mul-pos v.proper p.1;
    o_proper = mul-pos v.o_proper p.1;
  }

  pub sum-spread :
      (acc o : Ratio) (n : ℕ) (l : List Share)
      → All WidthIsPositive l
      → Split acc o r n t
      → Split
          (sum_from acc (map (spread r t) l))
          (sum_from o (active_widths l))
          r
          (n + other_total l)
          t
  unfolding sum_from active_widths spread other_total
  sum-spread acc o n [] w v = record {
    same = omega (arith, v.same);
    proper = v.proper;
    o_proper = v.o_proper;
  }
  sum-spread acc o n ((c, none) ∷ l) w v =
      let more : ltb 0 t ≡ true = ground arith in
      let part = r *ℚ (ratio c 1 /ℚ ratio t 1) in
      let step = sum-spread (acc +ℚ part) o (n + c) l w.1 (Split-none acc o n c v) in
      rw more
        (record { same = omega (arith, step.same); proper = step.proper; o_proper = step.o_proper })
  sum-spread acc o n ((c, some q) ∷ l) w v =
      sum-spread (acc +ℚ q) (o +ℚ q) n l w.1 (Split-some acc o q n w.0 v)

-- The two running sums start at zero, whatever the scale is.
pub Scaled-start : (scale : Ratio) → Scaled zero_r zero_r scale
Scaled-start scale = record { same = omega arith; proper = omega arith; o_proper = omega arith }

pub Split-start : (r : Ratio) (t : ℕ) → Split zero_r zero_r r 0 t
Split-start r t = record { same = omega arith; proper = omega arith; o_proper = omega arith }

sum_from-positive :
    (acc : Ratio) (l : List Share)
    → All WidthIsPositive l
    → 0 < acc.den
    → (0 < (sum_from acc (active_widths l)).den) × (acc.num ≤ (sum_from acc (active_widths l)).num)
unfolding sum_from active_widths
sum_from-positive acc [] w p = (p, omega arith)
sum_from-positive acc ((c, none) ∷ l) w p = sum_from-positive acc l w.1 p
sum_from-positive acc ((c, some q) ∷ l) w p =
    let step = sum_from-positive (acc +ℚ q) l w.1 (mul-pos p w.0.1) in
    (step.0, grind (arith, step.1, w.0.1))

-- Something overridden has a positive sum.
pub sum-IsPositive :
    (l : List Share)
    → All WidthIsPositive l
    → is_nil (active_widths l) ≡ false
    → IsPositive (sum (active_widths l))
unfolding sum active_widths sum_from
sum-IsPositive [] w h = absurd (ground arith)
sum-IsPositive ((c, none) ∷ l) w h = sum-IsPositive l w.1 h
sum-IsPositive ((c, some q) ∷ l) w h =
    let step = sum_from-positive (zero_r +ℚ q) l w.1 (omega (arith, w.0.1)) in
    (omega (arith, step.1, w.0.0), step.0)
