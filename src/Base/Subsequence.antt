-- ===== src/Base/Subsequence.antt =====
-- Lists with elements left out.
use Prim.Native.Nat.{ℕ, zero, suc, ◌<◌}
use mathlib.Core.Path.{◌≡◌}
use mathlib.Core.List.{List, [], ◌∷◌, ◌++◌}
use mathlib.Core.Option.{some}
use native.Mathlib.Omega.{arith}
use mathlib.Core.Path.{subst}
use gruvax.Base.Lists.{get_elem?, drop}

-- The first list is the second with elements left out.
pub data IsSubsequence {A : Type 0} : List A → List A → Type 0 where
  done : IsSubsequence [] []
  skip : {x : A} {xs ys : List A} → IsSubsequence xs ys → IsSubsequence xs (x ∷ ys)
  both : {x : A} {xs ys : List A} → IsSubsequence xs ys → IsSubsequence (x ∷ xs) (x ∷ ys)

module _ {A : Type 0} where
  pub nil-IsSubsequence : (xs : List A) → IsSubsequence [] xs
  nil-IsSubsequence [] = done
  nil-IsSubsequence (x ∷ xs) = skip (nil-IsSubsequence xs)

  pub IsSubsequence-refl : (xs : List A) → IsSubsequence xs xs
  IsSubsequence-refl [] = done
  IsSubsequence-refl (x ∷ xs) = both (IsSubsequence-refl xs)

  pub skip_to :
      (out : List A) (k : ℕ) (xs : List A) → IsSubsequence out (drop k xs) → IsSubsequence out xs
  skip_to out zero xs s = s
  skip_to out (suc k) [] s = s
  skip_to out (suc k) (x ∷ xs) s = skip (skip_to out k xs s)

  -- An element, then elements from further on.
  pub cons-IsSubsequence :
      (x : A) (out : List A) (j k : ℕ) (xs : List A)
      → get_elem? xs j ≡ some x
      → j < k
      → IsSubsequence out (drop k xs)
      → IsSubsequence (x ∷ out) (drop j xs)
  cons-IsSubsequence x out j k [] e h s = ground arith
  cons-IsSubsequence x out zero (suc k) (y ∷ xs) e h s =
      let same : y ≡ x = cc e in
      subst (λ (z : A). IsSubsequence (z ∷ out) (y ∷ xs)) same (both (skip_to out k xs s))
  cons-IsSubsequence x out zero zero (y ∷ xs) e h s = ground arith
  cons-IsSubsequence x out (suc j) zero (y ∷ xs) e h s = ground arith
  cons-IsSubsequence x out (suc j) (suc k) (y ∷ xs) e h s =
      cons-IsSubsequence x out j k xs e (omega arith) s

  pub IsSubsequence-append_skip :
      (xs ys : List A) (x : A) → IsSubsequence xs ys → IsSubsequence xs (ys ++ x ∷ [])
  IsSubsequence-append_skip xs ys x done = skip done
  IsSubsequence-append_skip xs ys x (skip s) = skip (IsSubsequence-append_skip xs _ x s)
  IsSubsequence-append_skip xs ys x (both s) = both (IsSubsequence-append_skip _ _ x s)

  pub IsSubsequence-append_both :
      (xs ys : List A) (x : A) → IsSubsequence xs ys → IsSubsequence (xs ++ x ∷ []) (ys ++ x ∷ [])
  IsSubsequence-append_both xs ys x done = both done
  IsSubsequence-append_both xs ys x (skip s) = skip (IsSubsequence-append_both xs _ x s)
  IsSubsequence-append_both xs ys x (both s) = both (IsSubsequence-append_both _ _ x s)
