-- ===== src/Locate/Span.antt =====
-- The shape of every result of `locate` (gruvax/estimator/algorithm.py).
use mathlib.Core.Option.{some-injective}
use gruvax.Base.{
  ℕ, zero, suc, ◌≡◌, refl, sym, subst, ap, arith, Bool, true, false, ◌&&◌, Option, none, some, List,
  [], ◌∷◌, map, keep, any, Text, text_eq, In, get_elem?, is_nil, find_index, if◌then◌else◌,
  Bool-cases, Option-cases, inl, inr,
}
use gruvax.Base.Ratio.{one, le, Ratio}
use gruvax.Base.Sort.{sort_by, sort_by-In}
use gruvax.Unicode.{Unicode}
use gruvax.Snapshot.{CollectionSnapshot, RecordRow, get_label_records}
use gruvax.Confidence.{compute_confidence}
use gruvax.Segments.Assign.{position_order}
use gruvax.Segments.Bins.{LabelSegment, SegmentBin, sort_records}
use gruvax.Segments.Derive.{
  SegmentCache, find_segment, find_in_bins, get_segment_for_rank, get_bins_for_label,
}
use gruvax.Locate.{
  CubeRef, SubInterval, LocateResult, cube_only_v1, segment_v1, cube_of, cube_position, same_cube,
  no_boundary, covered, record_band, next_in_span, is_some_cube, sorted_label, rank_of_release,
  span_of, locate_cube_only, segment_result, locate_by_segment, locate,
}

-- An interval in cube `c`, with a next cube from the span exactly where it says that it crosses.
pub record IsInterval (c : CubeRef) (span : List CubeRef) (i : SubInterval) : Type 0 where
  pub same_cube : i.cube ≡ c
  pub crosses : i.crosses_boundary ≡ is_some_cube i.next_cube
  pub next_listed : (d : CubeRef) → i.next_cube ≡ some d → In d span

-- No cube and nothing else; or a cube of the span, alone or with an interval in it.
pub data IsShaped (release_id : ℕ) : LocateResult → Type 0 where
  nowhere : IsShaped release_id (no_boundary release_id)
  cube_only :
      (c : CubeRef) (span : List CubeRef) → IsShaped release_id (covered release_id (c ∷ span))
  interval :
      (c : CubeRef) (span : List CubeRef) (i : SubInterval) (confidence : Ratio)
      → In c span
      → IsInterval c span i
      → IsShaped release_id (record {
        release_id = release_id;
        primary_cube = some c;
        label_span = span;
        sub_cube_interval = some i;
        confidence = confidence;
        estimator_version = segment_v1;
      })

In-get_elem? : (xs : List CubeRef) (i : ℕ) (d : CubeRef) → get_elem? xs i ≡ some d → In d xs
In-get_elem? [] i d e = ground (arith, e)
In-get_elem? (x ∷ xs) zero d e = inl (sym (ground (arith, e)))
In-get_elem? (x ∷ xs) (suc i) d e = inr (In-get_elem? xs i d e)

In-next_in_span :
    (i : Option ℕ) (span : List CubeRef) (d : CubeRef) → next_in_span i span ≡ some d → In d span
unfolding next_in_span
In-next_in_span none span d e = ground (arith, e)
In-next_in_span (some i) span d e = In-get_elem? span (suc i) d e

covered-IsShaped :
    (release_id : ℕ) (span : List CubeRef) → IsShaped release_id (covered release_id span)
unfolding covered
covered-IsShaped release_id [] = nowhere
covered-IsShaped release_id (c ∷ span) = cube_only c span

module _ (u : Unicode) where
  has_label : Text → LabelSegment → Bool
  has_label key s = text_eq (u.casefold s.label) key

  any-find_segment :
      (key : Text) (rank : ℕ) (segments : List LabelSegment) (seg : LabelSegment)
      → find_segment u key rank segments ≡ some seg
      → any (has_label key) segments ≡ true
  unfolding find_segment has_label
  any-find_segment key rank [] seg e = ground (arith, e)
  any-find_segment key rank (s ∷ segments) seg e =
      ground (arith, any-find_segment key rank segments seg, e)

  -- The bin that holds the rank is one of the label's bins.
  find_in_bins-In :
      (key : Text) (rank : ℕ) (bins : List SegmentBin) (b : SegmentBin) (seg : LabelSegment)
      → find_in_bins u key rank bins ≡ some (b, seg)
      → In (cube_of b) (map cube_of (keep (λ x. any (has_label key) x.segments) bins))
  unfolding find_in_bins
  find_in_bins-In key rank [] b seg e = ground (arith, e)
  find_in_bins-In key rank (x ∷ bins) b seg e =
      elim (Option-cases (find_segment u key rank x.segments)) [
        | inl f ↦
            let later = find_in_bins-In key rank bins b seg (rw (find_in_bins, f) at e) in
            elim (Bool-cases (any (has_label key) x.segments)) [
              | inl h ↦ rw h (inr later)
              | inr h ↦ rw h later
            ]
        | inr (s, f) ↦
            let first : x ≡ b =
              ap (λ (q : SegmentBin × LabelSegment). q.0)
                (some-injective (x, s) (b, seg) (rw (find_in_bins, f) at e)) in
            rw (any-find_segment key rank x.segments s f) (inl (ap cube_of (sym first)))
      ]

  cube-In-span :
      (cache : SegmentCache) (label : Text) (rank : ℕ) (b : SegmentBin) (seg : LabelSegment)
      → get_segment_for_rank u cache label rank ≡ some (b, seg)
      → In (cube_of b) (span_of u cache label)
  unfolding get_segment_for_rank span_of get_bins_for_label has_label
  cube-In-span cache label rank b seg e =
      sort_by-In position_order cube_position (cube_of b) _
        (find_in_bins-In (u.casefold label) rank cache.bins b seg e)

  next_of-In :
      (continues : Bool) (primary : CubeRef) (span : List CubeRef) (d : CubeRef)
      → (if continues then next_in_span (find_index (λ c. same_cube c primary) span) span else none)
        ≡ some d
      → In d span
  next_of-In true primary span d e = In-next_in_span _ span d e
  next_of-In false primary span d e = ground (arith, e)

  segment_result-IsShaped :
      (release_id : ℕ) (b : SegmentBin) (seg : LabelSegment) (rank k : ℕ) (span : List CubeRef)
      → In (cube_of b) span
      → IsShaped release_id (segment_result u release_id b seg rank k span)
  unfolding segment_result
  segment_result-IsShaped release_id b seg rank k span m =
      interval (cube_of b) span _ (compute_confidence k) m (record {
        same_cube = refl;
        crosses = refl;
        next_listed =
            next_of-In (seg.continues && le one (record_band b seg rank k).1) (cube_of b) span;
      })

  locate_cube_only-IsShaped :
      (release_id : ℕ) (label : Text) (cache : SegmentCache) (snapshot : CollectionSnapshot)
      → IsShaped release_id (locate_cube_only u release_id label cache snapshot)
  unfolding locate_cube_only
  locate_cube_only-IsShaped release_id label cache snapshot =
      elim (Option-cases (rank_of_release u release_id (sorted_label u snapshot label))) [
        | inl e ↦ rw (locate_cube_only, e) nowhere
        | inr (rank, e) ↦ elim (Option-cases (get_segment_for_rank u cache label rank)) [
          | inl f ↦ rw (locate_cube_only, e, f) nowhere
          | inr (found, f) ↦
              rw (locate_cube_only, e, f) (covered-IsShaped release_id (span_of u cache label))
        ]
      ]

  is_nil-nil : (l : List RecordRow) → is_nil l ≡ true → l ≡ []
  is_nil-nil [] e = refl
  is_nil-nil (r ∷ l) e = ground (arith, e)

  -- A label without records has no ranks.
  locate_cube_only-nil :
      (release_id : ℕ) (label : Text) (cache : SegmentCache) (snapshot : CollectionSnapshot)
      → get_label_records u snapshot label ≡ []
      → locate_cube_only u release_id label cache snapshot ≡ no_boundary release_id
  unfolding locate_cube_only sort_records sort_by
  locate_cube_only-nil release_id label cache snapshot e = rw (locate_cube_only, e) refl

  locate_by_segment-IsShaped :
      (release_id : ℕ) (label : Text) (cache : SegmentCache) (snapshot : CollectionSnapshot)
      → IsShaped release_id (locate_by_segment u release_id label cache snapshot)
  unfolding locate_by_segment
  locate_by_segment-IsShaped release_id label cache snapshot =
      elim (Option-cases (rank_of_release u release_id (sorted_label u snapshot label))) [
        | inl e ↦
            rw (locate_by_segment, e) (locate_cube_only-IsShaped release_id label cache snapshot)
        | inr (rank, e) ↦ elim (Option-cases (get_segment_for_rank u cache label rank)) [
          | inl f ↦
              rw (locate_by_segment, e, f)
                (locate_cube_only-IsShaped release_id label cache snapshot)
          | inr ((b, seg), f) ↦
              rw (locate_by_segment, e, f)
                (segment_result-IsShaped release_id b seg rank _ (span_of u cache label)
                  (cube-In-span cache label rank b seg f))
        ]
      ]

  -- Every result of `locate` has one of three shapes: no cube, no span and no interval; a cube that is
  -- the first of its label span, without an interval; or a cube of its label span with an interval in
  -- that cube. The interval says that it crosses a boundary exactly where it has a next cube, and that
  -- cube is in the span.
  pub locate-IsShaped :
      (release_id : ℕ) (label : Text) (cache : SegmentCache) (snapshot : CollectionSnapshot)
      → IsShaped release_id (locate u release_id label cache snapshot)
  unfolding locate
  locate-IsShaped release_id label cache snapshot =
      elim (Bool-cases (is_nil (get_label_records u snapshot label))) [
        | inl e ↦
            let empty =
              locate_cube_only-nil release_id label cache snapshot
                (is_nil-nil (get_label_records u snapshot label) e) in
            rw (locate, e)
              (subst
                (λ (r : LocateResult).
                  IsShaped release_id (record r { estimator_version = cube_only_v1 }))
                (sym empty) nowhere)
        | inr e ↦ rw e (locate_by_segment-IsShaped release_id label cache snapshot)
      ]
