-- ===== src/Tests/Widths.antt =====
-- A width for a label of the small shelf.
use gruvax.Base.{◌≡◌, ◌≢◌, refl, true, false, none, some, List, [], ◌∷◌, codes, map}
use gruvax.Base.Dict.{get, put}
use gruvax.Base.Ratio.{ratio, one, lt, sum, ◌+ℚ◌}
use gruvax.Unicode.Ascii.{ascii}
use gruvax.Normalize.{strip, lstrip, rstrip}
use gruvax.Boundaries.{override_key}
use gruvax.Segments.Bins.{LabelSegment, SegmentBin}
use gruvax.Segments.Derive.{SegmentCache, get_bin}
use gruvax.Editing.{Environment, Profile, Refusal}
use gruvax.Editing.Validation.{text_key}
use gruvax.Editing.Idempotency.{check_idempotency, cached_response}
use gruvax.Editing.Requests.{client_error, status_of}
use gruvax.Editing.Widths.{
  LabelOverride, key_at, bin_labels_of, phantom_labels, validate_bin_override_sums,
  effective_overrides, edit_all, edit_effective, bin_overrides, set_bin_overrides,
}
use gruvax.Editing.Widths.Effective.{set_bin_overrides-effective}
use gruvax.Tests.{shelf, snapshot}

abbrev segment : LabelSegment
segment = record {
  label = codes "blue note";
  label_display = codes "Blue Note";
  first_rank_in_label = 0;
  last_rank_in_label = 1;
  segment_count = 2;
  auto_fraction = one;
  applied_fraction = one;
  offset_in_bin = ratio 0 1;
  is_override = false;
  continues = false;
}

abbrev bin : SegmentBin
bin = record {
  unit_id = 1;
  row = 0;
  col = 2;
  cut_label = some (codes "Blue Note");
  cut_catalog = some (codes "BLP 1");
  segments = segment ∷ record segment { label = codes "impulse" } ∷ [];
}

abbrev segments : SegmentCache
segments = record { bins = bin ∷ []; by_coord = ((1, 0, 2), bin) ∷ [] }

abbrev profile : Profile
profile = record {
  database = record {
    boundaries = shelf;
    overrides = ((1, 0, 2, codes "impulse"), ratio 1 4) ∷ [];
    history = [];
    collection = [];
    idempotency_keys = [];
  };
  boundary_cache = record {
    generation = 1;
    rows = shelf;
    overrides = ((1, 0, 2, codes "impulse"), ratio 1 4) ∷ [];
  };
  segment_cache = segments;
  snapshot = snapshot;
  published = [];
}

abbrev env : Environment
env = record { now = 10; new_id = codes "a"; reads = true }

abbrev wide : List LabelOverride
wide = record { label = codes " Blue Note"; fraction = some (ratio 3 4) } ∷ []

new_key : check_idempotency (some (codes "k")) profile.database ≡ none
unfolding check_idempotency cached_response
new_key = refl

found_bin : get_bin segments 1 0 2 ≡ some bin
unfolding get_bin get
found_bin = refl

known_labels : phantom_labels ascii (bin_labels_of bin) wide ≡ []
unfolding phantom_labels strip lstrip rstrip
known_labels = refl

fits :
    validate_bin_override_sums ascii profile.boundary_cache.overrides wide
      (1, (0, 2))
      (bin_labels_of bin)
    ≡ none
unfolding validate_bin_override_sums effective_overrides edit_all edit_effective bin_overrides put
    strip lstrip rstrip sum
fits = refl

set_bin_overrides-effective_example :
    ((r : Refusal)
      → status_of (set_bin_overrides ascii env (some (codes "k")) (1, (0, 2)) wide profile).0
        ≢ client_error r)
    × (lt (one +ℚ ratio 1 1000000000) (
          sum (
            map
              (λ e. e.1)
              (effective_overrides ascii profile.boundary_cache.overrides wide
                (1, (0, 2))
                (bin_labels_of bin))))
        ≡ false)
    × (get override_key
          (key_at (1, (0, 2)) (codes "blue note"))
          (set_bin_overrides ascii env
            (some (codes "k"))
            (1, (0, 2))
            wide
            profile).1.database.overrides
        ≡ get text_key (codes "blue note") (
            effective_overrides ascii profile.boundary_cache.overrides wide
              (1, (0, 2))
              (bin_labels_of bin)))
set_bin_overrides-effective_example =
    set_bin_overrides-effective ascii env (some (codes "k")) 0 2 1 wide profile bin
      (codes "blue note") new_key found_bin known_labels fits (λ k. refl) refl
