-- ===== src/Locate/Band.antt =====
-- The band of `_record_band` in gruvax/estimator/algorithm.py lies in the cube and has a width.
use native.Mathlib.Nat.{mul-pos, mul-le-mul_right}
use gruvax.Base.{ℕ, ◌+◌, ◌-◌, ◌*◌, ◌≤◌, ◌<◌, ◌==◌, arith, Bool-cases, inl, inr}
use gruvax.Base.Ratio.{Ratio, one, ◌+ℚ◌, ◌*ℚ◌, ◌≤ℚ◌, IsProper, le}
use gruvax.Confidence.{position_half_width}
use gruvax.Segments.Bins.{LabelSegment, SegmentBin}
use gruvax.Locate.{rank_fraction, band_position, band_around, record_band}

-- A proper fraction of at most one.
pub record IsPart (p : Ratio) : Type 0 where
  pub proper : 0 < p.den
  pub at_most_one : p.num ≤ p.den

-- The segment holds the rank, and lies in the width of its bin.
pub record Holds (seg : LabelSegment) (rank : ℕ) : Type 0 where
  pub from_first : seg.first_rank_in_label ≤ rank
  pub to_last : rank < seg.first_rank_in_label + seg.segment_count
  pub offset_proper : IsProper seg.offset_in_bin
  pub width_proper : IsProper seg.applied_fraction
  pub inside : seg.offset_in_bin +ℚ seg.applied_fraction ≤ℚ one

-- Part of the way from the offset to the end of the segment.
IsPart-along :
    (o f a : Ratio) → IsPart f → IsProper o → IsProper a → o +ℚ a ≤ℚ one → IsPart (o +ℚ f *ℚ a)
IsPart-along o f a p o_proper a_proper inside = record {
  proper = mul-pos o_proper (mul-pos p.proper a_proper);
  at_most_one =
      let reach = mul-le-mul_right (a.num * o.den) p.at_most_one in
      let whole = mul-le-mul_right f.den inside in omega arith;
}

rank_fraction-IsPart :
    (b : SegmentBin) (seg : LabelSegment) (rank : ℕ)
    → Holds seg rank
    → IsPart (rank_fraction b seg rank)
unfolding rank_fraction
rank_fraction-IsPart b seg rank h = ground (arith, h.from_first, h.to_last)

pub band_position-IsPart :
    (b : SegmentBin) (seg : LabelSegment) (rank : ℕ)
    → Holds seg rank
    → IsPart (band_position b seg rank)
unfolding band_position
band_position-IsPart b seg rank h =
    IsPart-along seg.offset_in_bin (rank_fraction b seg rank) seg.applied_fraction
      (rank_fraction-IsPart b seg rank h) h.offset_proper h.width_proper h.inside

abbrev pub IsBand : Ratio × Ratio → Type 0
IsBand (start, end) = (start +ℚ position_half_width ≤ℚ end) × (end ≤ℚ one)

band_around-IsBand : (p : Ratio) → IsPart p → IsBand (band_around p)
band_around-IsBand p h = elim (Bool-cases (le one (p +ℚ position_half_width))) [
  | inl e ↦ rw e (omega (arith, h.at_most_one), omega arith)
  | inr e ↦
      let whole : (p.num * 100 - 5 * p.den) * 100 + 5 * (p.den * 100)
          ≤ (p.num * 100 + 5 * p.den) * 100 =
        omega arith in
      rw e (omega (arith, mul-le-mul_right (p.den * 100) whole), ground arith)
]

module _ (b : SegmentBin) (seg : LabelSegment) (rank label_count : ℕ) where
  -- The band of a record that its segment holds is inside the cube, and at least half a band wide:
  -- it starts half a band or more before it ends, and ends at one at most.
  pub record_band-IsBand : Holds seg rank → IsBand (record_band b seg rank label_count)
  unfolding record_band
  record_band-IsBand h = elim (Bool-cases (label_count == 1)) [
    | inl single ↦ rw single (omega arith, omega arith)
    | inr several ↦
        rw several
          (band_around-IsBand (band_position b seg rank) (band_position-IsPart b seg rank h))
  ]
