-- ===== src/Tests/Contents.antt =====
-- The contents of a bin: a sample of its records, and a midpoint of two of them.
use gruvax.Base.{◌≡◌, refl, none, some, List, [], ◌∷◌, codes, arith}
use gruvax.Base.Sort.{sort_by}
use gruvax.Base.Dict.{get}
use gruvax.Unicode.Ascii.{ascii}
use gruvax.Normalize.{parse_key}
use gruvax.Snapshot.{RecordRow, CollectionSnapshot, get_label_records, records_of}
use gruvax.Segments.Bins.{sort_records}
use gruvax.BinMath.{sample_records, suggest_midpoint, last_index}
use gruvax.BinMath.Sample.{IsSample, sample_records-IsSample}
use gruvax.BinMath.Midpoint.{IsMidpoint, suggest_midpoint-IsMidpoint}
use gruvax.Tests.{record_1, record_2}

abbrev last : RecordRow
last = record record_1 { release_id = 4; catalog_number = codes "BLP 12" }

-- Out of order; sorted, they are 2, 1, 4.
abbrev ladder : CollectionSnapshot
ladder = record { by_label = (codes "blue note", last ∷ record_1 ∷ record_2 ∷ []) ∷ [] }

sample_records_example :
    (out : List RecordRow) × (sample_records (record_2 ∷ record_1 ∷ last ∷ []) 2 ≡ some out)
    × IsSample (record_2 ∷ record_1 ∷ last ∷ []) 2 out
sample_records_example = sample_records-IsSample (record_2 ∷ record_1 ∷ last ∷ []) 2 (omega arith)

abbrev sorted : List RecordRow
sorted = sort_records ascii (get_label_records ascii ladder (codes "Blue Note"))

places : (last_index ascii 4 0 none sorted ≡ some 2) × (last_index ascii 2 0 none sorted ≡ some 0)
unfolding last_index sort_records get_label_records parse_key sort_by records_of get
places = (refl, refl)

suggest_midpoint_example :
    IsMidpoint ascii sorted 2 0 (suggest_midpoint ascii (codes "Blue Note") 4 2 ladder)
suggest_midpoint_example =
    suggest_midpoint-IsMidpoint ascii (codes "Blue Note") 4 2 2 0 ladder places.0 places.1
