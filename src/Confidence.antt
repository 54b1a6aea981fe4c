-- ===== src/Confidence.antt =====
-- gruvax/estimator/constants.py and the constants of gruvax/estimator/contract.py.
pub mod Monotone
use gruvax.Base.{ℕ, ◌-◌, leb, if◌then◌else◌}
use gruvax.Base.Ratio.{Ratio, ratio, zero_r, ◌+ℚ◌, ◌*ℚ◌, min_r}

abbrev pub cube_only_confidence : Ratio
cube_only_confidence = ratio 30 100

abbrev pub no_boundary_confidence : Ratio
no_boundary_confidence = zero_r

abbrev pub position_half_width : Ratio
position_half_width = ratio 5 100

unfoldable pub compute_confidence : ℕ → Ratio
compute_confidence k =
    if leb k 1
    then cube_only_confidence
    else if leb k 3
    then ratio 35 100 +ℚ ratio 5 100 *ℚ ratio (k - 2) 1
    else if leb k 10
    then min_r (ratio 70 100) (ratio 50 100 +ℚ ratio 5 100 *ℚ ratio (k - 3) 1)
    else if leb k 30
    then min_r (ratio 82 100) (ratio 70 100 +ℚ ratio 12 1000 *ℚ ratio (k - 10) 1)
    else ratio 85 100
