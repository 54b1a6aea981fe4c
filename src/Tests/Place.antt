-- ===== src/Tests/Place.antt =====
-- The small shelf: where its records go, and what `derive` makes of it.
use mathlib.Core.List.{Perm}
use gruvax.Base.{
  ℕ, ◌≡◌, refl, true, false, none, some, [], ◌∷◌, ◌⊎◌, codes, keep, arith, get_elem?, In,
}
use gruvax.Base.Ratio.{ratio, zero_r}
use gruvax.Base.Sort.{sort_by}
use gruvax.Unicode.Ascii.{ascii}
use gruvax.Normalize.{label_sort_key, parse_key}
use gruvax.Segments.Assign.{
  assigned_bin, last_cut, cut_bins_by_key, cut_key, cut_bins, cut_order, record_key, bin_records,
  global_records, all_records, shelf_order,
}
use gruvax.Segments.Assign.Search.{IsLastCut, IsBeforeAll, assigned_bin_last}
use gruvax.Segments.Assign.Place.{goes_to, bin_records-get}
use gruvax.Segments.Assign.Conserve.{joined, has_cut_before, joined-bin_records}
use gruvax.Segments.Bins.{LabelSegment, SegmentBin}
use gruvax.Segments.Derive.{SegmentCache, derive, get_bin, load_bins}
use gruvax.Segments.Derive.Lookup.{IsVacant, get_bin-load_bins}
use gruvax.Segments.Derive.Total.{AreBinsOf, derive_total, goes_to-is_empty}
use gruvax.Locate.{record_band, locate}
use gruvax.Locate.Span.{IsShaped, locate-IsShaped}
use gruvax.Locate.Band.{Holds, IsBand, record_band-IsBand}
use gruvax.Tests.{
  shelf, gap, by_label, record_1, record_3, snapshot, boundaries, overrides, no_cache,
}

assigned_bin_last_example :
    ((assigned_bin ascii shelf record_1 ≡ none)
      × IsBeforeAll cut_order (record_key ascii record_1) (cut_bins ascii 0 shelf))
    ⊎ ((i : ℕ) × (assigned_bin ascii shelf record_1 ≡ some i)
        × IsLastCut cut_order (record_key ascii record_1) (cut_bins ascii 0 shelf) i)
assigned_bin_last_example = assigned_bin_last ascii shelf record_1

-- The later cube, whose cut comes first in key order.
assigned_blue_note : assigned_bin ascii shelf record_1 ≡ some 2
unfolding assigned_bin last_cut cut_bins_by_key sort_by cut_bins cut_key label_sort_key parse_key
assigned_blue_note = refl

bin_records-get_example :
    get_elem? (bin_records ascii shelf by_label) 2
    ≡ some (keep (goes_to ascii shelf 2) (global_records ascii by_label))
bin_records-get_example = bin_records-get ascii shelf by_label 2 (omega arith)

joined-bin_records_example :
    Perm
      (joined (bin_records ascii shelf by_label))
      (keep (has_cut_before ascii shelf) (all_records by_label))
joined-bin_records_example = joined-bin_records ascii shelf by_label

goes_to-is_empty_example : goes_to ascii shelf 1 record_3 ≡ false
goes_to-is_empty_example = goes_to-is_empty ascii shelf 1 gap record_3 refl refl

derive_total_example :
    ((derive ascii boundaries snapshot overrides no_cache).1 ≡ true)
    × AreBinsOf ascii
        (shelf_order shelf)
        (bin_records ascii (shelf_order shelf) by_label)
        (derive ascii boundaries snapshot overrides no_cache).0.bins
derive_total_example = derive_total ascii boundaries snapshot overrides no_cache ((omega arith), tt)

abbrev segment : LabelSegment
segment = record {
  label = codes "blue note";
  label_display = codes "Blue Note";
  first_rank_in_label = 0;
  last_rank_in_label = 1;
  segment_count = 2;
  auto_fraction = ratio 1 1;
  applied_fraction = ratio 1 1;
  offset_in_bin = zero_r;
  is_override = false;
  continues = false;
}

abbrev bin : SegmentBin
bin = record {
  unit_id = 1;
  row = 0;
  col = 2;
  cut_label = some (codes "Blue Note");
  cut_catalog = some (codes "BLP 1");
  segments = segment ∷ [];
}

holds : Holds segment 1
holds = record {
  from_first = omega arith;
  to_last = omega arith;
  offset_proper = omega arith;
  width_proper = omega arith;
  inside = omega arith;
}

record_band-IsBand_example : IsBand (record_band bin segment 1 2)
record_band-IsBand_example = record_band-IsBand bin segment 1 2 holds

abbrev one_bin : SegmentCache
one_bin = record { bins = bin ∷ []; by_coord = [] }

locate-IsShaped_example : IsShaped 2 (locate ascii 2 (codes "Blue Note") one_bin snapshot)
locate-IsShaped_example = locate-IsShaped ascii 2 (codes "Blue Note") one_bin snapshot

abbrev other_bin : SegmentBin
other_bin = record bin { col = 1; segments = [] }

get_bin-load_bins_example :
    ((b : SegmentBin)
      → In b (bin ∷ other_bin ∷ [])
      → get_bin (load_bins (bin ∷ other_bin ∷ []) one_bin) b.unit_id b.row b.col ≡ some b)
    × ((unit_id row col : ℕ)
        → IsVacant (unit_id, row, col) (bin ∷ other_bin ∷ [])
        → get_bin (load_bins (bin ∷ other_bin ∷ []) one_bin) unit_id row col ≡ none)
get_bin-load_bins_example = get_bin-load_bins (bin ∷ other_bin ∷ []) one_bin ((refl, tt), (tt, tt))
