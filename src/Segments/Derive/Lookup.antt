-- ===== src/Segments/Derive/Lookup.antt =====
-- The lookup of a bin by its cube, in `SegmentCache` of gruvax/estimator/segment_cache.py.
use gruvax.Base.{ℕ, ◌≡◌, refl, sym, subst, ◌∙◌, false, none, some, List, [], ◌∷◌, In, inl, inr}
use gruvax.Base.Dict.{get, put, get-put_self, get-put_ne}
use gruvax.Segments.Bins.{SegmentBin}
use gruvax.Segments.Derive.{Coord, coord_key, coord, SegmentCache, index_bins, load_bins, get_bin}

-- No bin of the list is at the cube.
abbrev pub IsVacant : Coord → List SegmentBin → Type 0
IsVacant k [] = Unit
IsVacant k (b ∷ bins) = (coord_key.same (coord b) k ≡ false) × IsVacant k bins

-- No two bins of the list are at one cube.
abbrev pub AreApart : List SegmentBin → Type 0
AreApart [] = Unit
AreApart (b ∷ bins) = IsVacant (coord b) bins × AreApart bins

get-index_bins_vacant :
    (k : Coord) (d : List (Coord × SegmentBin)) (bins : List SegmentBin)
    → IsVacant k bins
    → get coord_key k (index_bins d bins) ≡ get coord_key k d
unfolding index_bins
get-index_bins_vacant k d [] v = refl
get-index_bins_vacant k d (b ∷ bins) v =
    get-index_bins_vacant k (put coord_key (coord b) b d) bins v.1
    ∙ get-put_ne coord_key (coord b) k b d v.0

get-index_bins :
    (b : SegmentBin) (d : List (Coord × SegmentBin)) (bins : List SegmentBin)
    → In b bins
    → AreApart bins
    → get coord_key (coord b) (index_bins d bins) ≡ some b
unfolding index_bins
get-index_bins b d [] m apart = absurd m
get-index_bins b d (c ∷ bins) (inl e) apart =
    subst (λ (x : SegmentBin). get coord_key (coord x) (index_bins d (c ∷ bins)) ≡ some x) (sym e)
      (get-index_bins_vacant (coord c) (put coord_key (coord c) c d) bins apart.0
        ∙ get-put_self coord_key (coord c) c d)
get-index_bins b d (c ∷ bins) (inr m) apart =
    get-index_bins b (put coord_key (coord c) c d) bins m apart.1

-- Of bins at different cubes, `get_bin` finds each at its cube once they are loaded, and nothing at a
-- cube that has none; what the cache held before is gone.
pub get_bin-load_bins :
    (bins : List SegmentBin) (cache : SegmentCache)
    → AreApart bins
    → ((b : SegmentBin) → In b bins → get_bin (load_bins bins cache) b.unit_id b.row b.col ≡ some b)
      × ((unit_id row col : ℕ)
          → IsVacant (unit_id, row, col) bins
          → get_bin (load_bins bins cache) unit_id row col ≡ none)
unfolding get_bin load_bins get
get_bin-load_bins bins cache apart = (
  λ b m. get-index_bins b [] bins m apart,
  λ unit_id row col v. get-index_bins_vacant (unit_id, row, col) [] bins v,
)
