-- ===== src/Tests/Shelf.antt =====
-- The caches of the small shelf.
use gruvax.Base.{◌≡◌, refl, none, [], ◌∷◌, codes}
use gruvax.Unicode.Ascii.{ascii}
use gruvax.Snapshot.{empty, load, get_label_records}
use gruvax.Snapshot.Grouping.{rows_of, get_label_records-load}
use gruvax.Boundaries.Generation.{perform, perform_all, call_load, generation_detects}
use gruvax.Tests.{rows, boundaries}

get_label_records-load_example :
    get_label_records ascii (load ascii rows empty) (codes "bLUE note")
    ≡ rows_of ascii (codes "blue note") rows
get_label_records-load_example = get_label_records-load ascii rows empty (codes "bLUE note")

generation_detects_example : perform_all (call_load none none ∷ []) boundaries ≡ boundaries
unfolding perform_all perform
generation_detects_example = generation_detects (call_load none none ∷ []) boundaries refl
