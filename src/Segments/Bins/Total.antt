-- ===== src/Segments/Bins/Total.antt =====
-- One bin of `derive`: its segments are as many rows as the bin has, and they tile its width.
use gruvax.Base.{
  ℕ, ◌+◌, ◌≡◌, refl, Bool, true, false, ◌||◌, some, List, [], ◌∷◌, map, arith, Text, length,
  length-map, inl, inr, ◌⊎◌, Bool-cases, ap, sym, ◌∙◌, All, is_nil, ◌==◌, ◌&&◌, text_eq,
}
use gruvax.Base.Ratio.{Ratio, zero_r, ◌+ℚ◌, sum, IsPositive}
use gruvax.Unicode.{Unicode}
use gruvax.Snapshot.{RecordRow, ByLabel}
use gruvax.Boundaries.{BoundaryRow, Overrides}
use gruvax.Segments.Fractions.{applied_fractions}
use gruvax.Segments.Fractions.Sum.{count_total, WidthIsPositive}
use gruvax.Segments.Fractions.Total.{IsOne, checked_fractions_total, length-applied_fractions}
use gruvax.Segments.Bins.{
  LabelSegment, Group, share, find_override, make_segment, make_segments, build_bin, bin_of,
  ordered_groups,
}
use gruvax.Segments.Bins.Groups.{group_total, total-ordered_groups}

-- Each segment starts where the widths before it end.
abbrev pub IsTiled : Ratio → List LabelSegment → Type 0
IsTiled offset [] = Unit
IsTiled offset (s ∷ segments) =
    (s.offset_in_bin ≡ offset) × IsTiled (offset +ℚ s.applied_fraction) segments

abbrev pub widths : List LabelSegment → List Ratio
widths segments = map (λ s. s.applied_fraction) segments

-- The rows of all segments.
unfoldable pub segment_total : List LabelSegment → ℕ
segment_total [] = 0
segment_total (s ∷ segments) = s.segment_count + segment_total segments

-- Every override of the map is a positive fraction.
abbrev pub OverridesArePositive : Overrides → Type 0
OverridesArePositive = All (λ o. IsPositive o.1)

module _ (u : Unicode) (overrides : Overrides) (brow : BoundaryRow) (by_label : ByLabel) where
  count_total-share :
      (groups : List Group) → count_total (map (share u overrides brow) groups) ≡ group_total groups
  unfolding count_total group_total share
  count_total-share [] = refl
  count_total-share (g ∷ groups) = omega (arith, count_total-share groups)

  find_override-positive :
      (lk : Text) (l : Overrides)
      → OverridesArePositive l
      → (n : ℕ) → WidthIsPositive (n, find_override u.casefold brow lk l)
  unfolding find_override
  find_override-positive lk [] h n = tt
  find_override-positive lk (((a, b, c, label), q) ∷ l) h n =
      elim (Bool-cases (matches a b c label)) [
        | inl e ↦ rw e h.0
        | inr e ↦ rw e (find_override-positive lk l h.1 n)
      ]
    where
      matches : ℕ → ℕ → ℕ → Text → Bool
      matches a b c label =
          a == brow.unit_id && b == brow.row && c == brow.col && text_eq (u.casefold label) lk

  shares-positive :
      (groups : List Group)
      → OverridesArePositive overrides
      → All WidthIsPositive (map (share u overrides brow) groups)
  unfolding share
  shares-positive [] h = tt
  shares-positive (g ∷ groups) h =
      (find_override-positive g.label overrides h (length g.records), shares-positive groups h)

  module _ (bin_total : ℕ) where
    widths-make_segments :
        (offset : Ratio) (groups : List Group) (fractions : List Ratio)
        → length fractions ≡ length groups
        → widths (make_segments u overrides brow by_label bin_total offset groups fractions)
          ≡ fractions
    unfolding make_segments make_segment
    widths-make_segments offset [] [] h = refl
    widths-make_segments offset [] (f ∷ fractions) h = absurd (omega arith)
    widths-make_segments offset (g ∷ groups) [] h = absurd (omega arith)
    widths-make_segments offset (g ∷ groups) (f ∷ fractions) h =
        ap (◌∷◌ f) (widths-make_segments (offset +ℚ f) groups fractions (omega arith))

    segment_total-make_segments :
        (offset : Ratio) (groups : List Group) (fractions : List Ratio)
        → length fractions ≡ length groups
        → segment_total (make_segments u overrides brow by_label bin_total offset groups fractions)
          ≡ group_total groups
    unfolding make_segments make_segment segment_total group_total
    segment_total-make_segments offset [] [] h = refl
    segment_total-make_segments offset [] (f ∷ fractions) h = refl
    segment_total-make_segments offset (g ∷ groups) [] h = absurd (omega arith)
    segment_total-make_segments offset (g ∷ groups) (f ∷ fractions) h =
        omega (arith, segment_total-make_segments (offset +ℚ f) groups fractions (omega arith))

    IsTiled-make_segments :
        (offset : Ratio) (groups : List Group) (fractions : List Ratio)
        → IsTiled offset (make_segments u overrides brow by_label bin_total offset groups fractions)
    unfolding make_segments make_segment
    IsTiled-make_segments offset [] fractions = tt
    IsTiled-make_segments offset (g ∷ groups) [] = tt
    IsTiled-make_segments offset (g ∷ groups) (f ∷ fractions) =
        (refl, IsTiled-make_segments (offset +ℚ f) groups fractions)

-- A bin in which the segments, where there are any, tile the whole width.
abbrev pub IsFull : List LabelSegment → Type 0
IsFull segments = (segments ≡ []) ⊎ (IsOne (sum (widths segments)) × IsTiled zero_r segments)

module _ (u : Unicode) (overrides : Overrides) (brow : BoundaryRow) (by_label : ByLabel) where
  -- What `build_bin` is to return: a bin of the row whose segments have the rows of `records`.
  abbrev pub Builds : List RecordRow → Type 0
  Builds records =
      (segments : List LabelSegment) × (build_bin u overrides by_label brow records
        ≡ some (bin_of u brow segments))
      × IsFull segments
      × ((brow.is_empty ≡ true → records ≡ []) → segment_total segments ≡ length records)

  build_filled :
      (records : List RecordRow)
      → (brow.is_empty || is_nil records) ≡ false
      → OverridesArePositive overrides
      → Builds records
  unfolding build_bin
  build_filled records filled positive =
      let groups = ordered_groups u records in
      let shares = map (share u overrides brow) groups in
      let t = length records in
      let fractions = applied_fractions t shares in
      let count : t ≡ count_total shares =
        sym (count_total-share u overrides brow by_label groups ∙ total-ordered_groups u records) in
      let (checked, whole) =
        checked_fractions_total t shares (ground arith) count
          (shares-positive u overrides brow by_label groups positive) in
      let lengths : length fractions ≡ length groups =
        length-applied_fractions t shares ∙ length-map (share u overrides brow) groups in
      (
        make_segments u overrides brow by_label t zero_r groups fractions,
        rw (filled, checked) refl,
        inr (
          rw (widths-make_segments u overrides brow by_label t zero_r groups fractions lengths)
              whole,
          IsTiled-make_segments u overrides brow by_label t zero_r groups fractions,
        ),
        λ _.
            segment_total-make_segments u overrides brow by_label t zero_r groups fractions lengths
            ∙ total-ordered_groups u records,
      )

  -- With positive overrides no bin makes `derive` raise.
  pub build_bin_total : (records : List RecordRow) → OverridesArePositive overrides → Builds records
  unfolding build_bin segment_total
  build_bin_total records positive = elim (Bool-cases (brow.is_empty || is_nil records)) [
    | inr filled ↦ build_filled records filled positive
    | inl void ↦
        ([], rw void refl, inl refl, λ v. sym (ap length (nothing brow.is_empty records void v)))
  ]
    where
      nothing :
          (e : Bool) (l : List RecordRow) → (e || is_nil l) ≡ true → (e ≡ true → l ≡ []) → l ≡ []
      nothing true l h v = v refl
      nothing false [] h v = refl
      nothing false (r ∷ l) h v = absurd (cc)
