-- ===== src/Base/Ratio/Sum.antt =====
-- Fractions over a fixed denominator, and cancelling a common factor.
use Prim.Native.Nat.{ℕ, ◌+◌, ◌*◌, ◌<◌}
use mathlib.Core.Path.{◌≡◌, ap}
use mathlib.Core.Bool.{false}
use native.Mathlib.Nat.{mul-pos}
use native.Mathlib.Omega.{arith}
use gruvax.Base.Ratio.{Ratio, ratio, one, ◌+ℚ◌, ◌≈◌, IsProper, distance, le}

pub mul_cancel : (k a b : ℕ) → 0 < k → a * k ≡ b * k → a ≡ b
mul_cancel k a b h e = grind arith

-- `r` is the fraction `n / d`.
pub record Over (r : Ratio) (n d : ℕ) : Type 0 where
  pub same : r.num * d ≡ n * r.den
  pub proper : 0 < r.den

pub Over-add : (r s : Ratio) (n m d : ℕ) → Over r n d → Over s m d → Over (r +ℚ s) (n + m) d
Over-add r s n m d p q = record {
  same = omega (arith, ap (λ (t : ℕ). t * s.den) p.same, ap (λ (t : ℕ). t * r.den) q.same);
  proper = mul-pos p.proper q.proper;
}

-- Equal fractions have distance zero, so no positive tolerance is reached.
pub distance_zero :
    (a : Ratio) (d : ℕ) → IsProper a → a ≈ one → le (ratio 1 d) (distance a one) ≡ false
distance_zero a d p e = ground (arith, mul-pos p p)
