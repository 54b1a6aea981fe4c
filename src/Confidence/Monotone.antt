-- ===== src/Confidence/Monotone.antt =====
-- The calibration of gruvax/estimator/constants.py rises with the number of records.
use gruvax.Base.{ℕ, ◌≤◌, arith}
use gruvax.Base.Ratio.{ratio, ◌≤ℚ◌}
use gruvax.Confidence.{compute_confidence, cube_only_confidence}

-- More records never lower the confidence.
pub compute_confidence_mono : (j k : ℕ) → j ≤ k → compute_confidence j ≤ℚ compute_confidence k
unfolding compute_confidence
compute_confidence_mono j k h = ground arith

-- It stays between the cube-only floor and 0.85, the two ends included.
pub compute_confidence_bounds :
    (k : ℕ)
    → (cube_only_confidence ≤ℚ compute_confidence k) × (compute_confidence k ≤ℚ ratio 85 100)
unfolding compute_confidence
compute_confidence_bounds k = ground arith
