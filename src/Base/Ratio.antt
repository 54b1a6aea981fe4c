-- ===== src/Base/Ratio.antt =====
-- Non-negative fractions, which stand for the source's floats: exact, with no rounding.
pub mod Sum
use Prim.Native.Nat.{ℕ, ◌+◌, ◌-◌, ◌*◌, ◌≤◌, ◌<◌}
use mathlib.Core.Path.{◌≡◌}
use mathlib.Core.Bool.{Bool, true, false, not}
use mathlib.Core.List.{List, [], ◌∷◌}
use native.Mathlib.Omega.{arith}
use gruvax.Base.Tests.{leb, if◌then◌else◌}

pub record Ratio : Type 0 where
  pub num : ℕ
  pub den : ℕ

abbrev pub ratio : ℕ → ℕ → Ratio
ratio n d = record { num = n; den = d }

abbrev pub zero_r : Ratio
zero_r = ratio 0 1

abbrev pub one : Ratio
one = ratio 1 1

infixl 65 ◌+ℚ◌ ◌-ℚ◌
infixl 70 ◌*ℚ◌ ◌/ℚ◌
abbrev pub ◌+ℚ◌ : Ratio → Ratio → Ratio
a +ℚ b = ratio (a.num * b.den + b.num * a.den) (a.den * b.den)

-- Cut off at zero: `max(0.0, a - b)`.
abbrev pub ◌-ℚ◌ : Ratio → Ratio → Ratio
a -ℚ b = ratio (a.num * b.den - b.num * a.den) (a.den * b.den)

abbrev pub ◌*ℚ◌ : Ratio → Ratio → Ratio
a *ℚ b = ratio (a.num * b.num) (a.den * b.den)

-- Division by a positive fraction.
abbrev pub ◌/ℚ◌ : Ratio → Ratio → Ratio
a /ℚ b = ratio (a.num * b.den) (a.den * b.num)

-- `a <= b`.
abbrev pub le : Ratio → Ratio → Bool
le a b = leb (a.num * b.den) (b.num * a.den)

-- `a < b`.
abbrev pub lt : Ratio → Ratio → Bool
lt a b = not (le b a)

-- `min(a, b)`.
abbrev pub min_r : Ratio → Ratio → Ratio
min_r a b = if le a b then a else b

infix 50 ◌≤ℚ◌
infix 4 ◌≈◌
abbrev pub ◌≤ℚ◌ : Ratio → Ratio → Type 0
a ≤ℚ b = a.num * b.den ≤ b.num * a.den

-- The same number.
abbrev pub ◌≈◌ : Ratio → Ratio → Type 0
a ≈ b = a.num * b.den ≡ b.num * a.den

abbrev pub IsProper : Ratio → Type 0
IsProper a = 0 < a.den

abbrev pub IsPositive : Ratio → Type 0
IsPositive a = (0 < a.num) × (0 < a.den)

-- `abs(a - b)`, of which one side is cut off.
abbrev pub distance : Ratio → Ratio → Ratio
distance a b = (a -ℚ b) +ℚ (b -ℚ a)

-- `sum(l, start)`: Python adds from the left.
unfoldable pub sum_from : Ratio → List Ratio → Ratio
sum_from acc [] = acc
sum_from acc (x ∷ xs) = sum_from (acc +ℚ x) xs

unfoldable pub sum : List Ratio → Ratio
unfolding sum_from
sum = sum_from zero_r
