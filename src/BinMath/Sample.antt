-- ===== src/BinMath/Sample.antt =====
-- The sample of `sample_records` (gruvax/estimator/boundary_math.py).
use native.Mathlib.Nat.{le-div_iff_mul-le, div-lt_iff_lt-mul, div-mul-le_self, mul-le-mul_right}
use gruvax.Base.{
  ℕ, zero, suc, ◌+◌, ◌*◌, ◌/◌, ◌<◌, ◌≡◌, refl, ap, arith, false, ◌==◌, leb, some, List, [], ◌∷◌,
  length, get_elem?, get_elem?_total, drop, if◌then◌else◌, Bool-cases, inl, inr,
}
use gruvax.Base.Subsequence.{
  IsSubsequence, done, nil-IsSubsequence, IsSubsequence-refl, skip_to, cons-IsSubsequence,
}
use gruvax.Snapshot.{RecordRow}
use gruvax.BinMath.{stride, sample_records}

next_stride : (i k n : ℕ) → 0 < n → n < k → i * k / n < suc i * k / n
next_stride i k n n_pos h = (le-div_iff_mul-le n_pos).1 (omega (arith, div-mul-le_self (i * k) n))

stride-in_range : (i k n : ℕ) → 0 < n → n < k → i < n → i * k / n < k
stride-in_range i k n n_pos h less =
    (div-lt_iff_lt-mul n_pos).1 (omega (arith, mul-le-mul_right k less))

-- What the rounds from `i` on yield.
record IsSampleFrom (records : List RecordRow) (n i todo : ℕ) (out : List RecordRow) : Type 0 where
  succeeds : stride records n i todo ≡ some out
  count : length out ≡ todo
  subsequence : IsSubsequence out (drop (i * length records / n) records)

module _ (records : List RecordRow) (n : ℕ) (n_pos : 0 < n) (fewer : n < length records) where
  cons-IsSampleFrom :
      (i todo : ℕ) (r : RecordRow) (out : List RecordRow)
      → get_elem? records (i * length records / n) ≡ some r
      → IsSampleFrom records n (suc i) todo out
      → IsSampleFrom records n i (suc todo) (r ∷ out)
  unfolding stride
  cons-IsSampleFrom i todo r out found h = record {
    succeeds = ground (arith, found, h.succeeds);
    count = ap suc h.count;
    subsequence =
        cons-IsSubsequence r out _ _ records found (next_stride i (length records) n n_pos fewer)
          h.subsequence;
  }

  stride-IsSampleFrom :
      (i todo : ℕ) → i + todo ≡ n → (out : List RecordRow) × IsSampleFrom records n i todo out
  unfolding stride
  stride-IsSampleFrom i zero e =
      ([], record { succeeds = refl; count = refl; subsequence = nil-IsSubsequence _ })
  stride-IsSampleFrom i (suc todo) e =
      let (r, found) =
        get_elem?_total records (i * length records / n)
          (stride-in_range i (length records) n n_pos fewer (omega arith)) in
      let (out, h) = stride-IsSampleFrom (suc i) todo (omega arith) in
      (r ∷ out, cons-IsSampleFrom i todo r out found h)

-- A sample of `n` of the records.
pub record IsSample (records : List RecordRow) (n : ℕ) (out : List RecordRow) : Type 0 where
  pub count : length out ≡ (if leb (length records) n then length records else n)
  pub subsequence : IsSubsequence out records

no_zero : (n : ℕ) → 0 < n → (n == 0) ≡ false
no_zero n h = ground arith

-- For a positive `n`, `sample_records` succeeds. Its result has `n` records, or as many as there are
-- where these are fewer, and is a subsequence of them: the order is kept and no place is taken twice.
pub sample_records-IsSample :
    (records : List RecordRow) (n : ℕ)
    → 0 < n
    → (out : List RecordRow) × (sample_records records n ≡ some out) × IsSample records n out
unfolding sample_records
sample_records-IsSample [] n n_pos = ([], refl, record { count = ground arith; subsequence = done })
sample_records-IsSample (r ∷ records) n n_pos = elim (Bool-cases (leb (length (r ∷ records)) n)) [
  | inl e ↦ (
    r ∷ records,
    rw e refl,
    record { count = rw e refl; subsequence = IsSubsequence-refl (r ∷ records) },
  )
  | inr e ↦
      let (out, h) = stride-IsSampleFrom (r ∷ records) n n_pos (ground arith) 0 n (omega arith) in
      (
        out,
        rw (e, no_zero n n_pos) h.succeeds,
        record { count = rw e h.count; subsequence = skip_to out _ (r ∷ records) h.subsequence },
      )
]
