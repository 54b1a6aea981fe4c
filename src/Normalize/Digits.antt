-- ===== src/Normalize/Digits.antt =====
-- The cap on digit runs in `parse_key` of gruvax/estimator/normalize.py.
use native.Mathlib.Nat.{pow-suc, add-zero, zero-add, pow-le-pow_right}
use gruvax.Base.{
  subst, ℕ, suc, ◌+◌, ◌*◌, ◌^◌, ◌≤◌, ◌<◌, ◌≡◌, Bool, true, false, Option, none, some, Text, arith,
  if◌then◌else◌, refl, is_nil, ◌||◌, List, [], ◌∷◌, map, length, All,
}
use gruvax.Base.Order.{lt}
use gruvax.Unicode.{Unicode}
use gruvax.Normalize.{
  Run, letters, digits, run_token, int_from, digit_cap, digit_saturation, parse_key, find_tokens,
  normalize_catalog, is_sentinel,
}
use gruvax.Normalize.Key.{Token, missing, numeric, token_order}

-- A numeric token is at most the ceiling.
abbrev pub InRange : Token → Type 0
InRange (numeric n) = n ≤ digit_saturation
InRange _ = Unit

-- One more digit is one more power of ten.
step-lt :
    (n k : ℕ) (o : Option ℕ)
    → ((d : ℕ) → o ≡ some d → d ≤ 9)
    → n < 10 ^ k
    → elim o [ none ↦ n | some d ↦ n * 10 + d ] < 10 ^ suc k
step-lt n k none small h = rw pow-suc (omega arith)
step-lt n k (some d) small h = rw pow-suc (omega (arith, small d refl))

module _ (u : Unicode) where
  int_from-lt : (n k : ℕ) (s : Text) → n < 10 ^ k → int_from u n s < 10 ^ (k + length s)
  unfolding int_from
  int_from-lt n k [] h = rw add-zero h
  int_from-lt n k (c ∷ s) h =
      let o = u.digit_value c in
      let next = step-lt n k o (u.digit_value-le c) h in
      let e : suc k + length s ≡ k + suc (length s) = omega arith in
      subst (λ m. int_from u (elim o [ none ↦ n | some d ↦ n * 10 + d ]) s < 10 ^ m) e
        (int_from-lt (elim o [ none ↦ n | some d ↦ n * 10 + d ]) (suc k) s next)

  short_run : (w : Text) → length w ≤ digit_cap → int_from u 0 w < digit_saturation
  short_run w h =
      let fits = int_from-lt 0 0 w (omega arith) in
      let wide : 10 ^ (0 + length w) ≤ 10 ^ digit_cap =
        rw zero-add (pow-le-pow_right {n = 10} (omega arith) h) in
      omega arith

  run-InRange : (r : Run) → InRange (run_token u r)
  unfolding run_token
  run-InRange (letters w) = tt
  run-InRange (digits w) = ground (arith, short_run w)

  runs-InRange : (l : List Run) → All InRange (map (run_token u) l)
  runs-InRange [] = tt
  runs-InRange (r ∷ l) = (run-InRange r, runs-InRange l)

  branches-InRange :
      (a b : Bool) (l : List Run)
      → All InRange (if a then missing ∷ [] else if b then missing ∷ [] else map (run_token u) l)
  branches-InRange true b l = (tt, tt)
  branches-InRange false true l = (tt, tt)
  branches-InRange false false l = runs-InRange l

  -- No numeric token of a key passes the ceiling, however long the digit runs of the catalog number.
  pub parse_key-InRange : (catalog : Option Text) → All InRange (parse_key u catalog)
  unfolding parse_key
  parse_key-InRange catalog =
      let normed = normalize_catalog u catalog in
      let tokens = find_tokens u normed in
      branches-InRange (is_nil normed || is_sentinel u normed) (is_nil tokens) tokens

  -- A run of more digits than the cap sorts strictly after every run within the cap.
  pub long_run_last :
      (short long : Text)
      → length short ≤ digit_cap
      → digit_cap < length long
      → lt token_order (run_token u (digits short)) (run_token u (digits long)) ≡ true
  unfolding run_token
  long_run_last short long h k = ground (arith, short_run short h)
