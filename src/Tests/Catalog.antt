-- ===== src/Tests/Catalog.antt =====
-- Catalog numbers: the keys of some, and the theorems of `Normalize` at them.
use gruvax.Base.{◌≡◌, refl, ◌↔◌, true, false, Option, none, some, [], ◌∷◌, Text, codes, All, arith}
use gruvax.Base.Order.{lt}
use gruvax.Unicode.Ascii.{ascii}
use gruvax.Normalize.{
  normalize_catalog, before_comma, is_sentinel, strip, lstrip, rstrip, parse_key, compare_catalogs,
  catalog_in_range, minus_one,
}
use gruvax.Normalize.Key.{alpha, numeric, catalog_order}
use gruvax.Normalize.Compare.{IsLe, catalog_in_range-compare_catalogs}
use gruvax.Normalize.Sentinel.{has_no_number, parse_key-missing}
use gruvax.Normalize.Digits.{InRange, parse_key-InRange}
use gruvax.Normalize.Numbers.{
  IsWordNumber, decimal, number_sign, word_sign, compare_catalogs-numbers,
}

abbrev blp_9 : Option Text
blp_9 = some (codes "BLP 9")

abbrev blp_10 : Option Text
blp_10 = some (codes " blp-10, BST 10")

parse_key_blp : parse_key ascii blp_10 ≡ alpha (codes "blp") ∷ numeric 10 ∷ []
unfolding parse_key
parse_key_blp = refl

compare_blp : compare_catalogs ascii blp_9 blp_10 ≡ minus_one
unfolding compare_catalogs parse_key
compare_blp = refl

blp_9-IsWordNumber : IsWordNumber ascii blp_9 (codes "blp") (codes "9")
unfolding normalize_catalog before_comma is_sentinel strip lstrip rstrip
blp_9-IsWordNumber = record {
  split = refl;
  real = refl;
  word = (refl, (refl, (refl, tt)));
  has_word = refl;
  number = ((refl, (9, refl)), tt);
  has_number = refl;
  short = omega arith;
}

blp_10-IsWordNumber : IsWordNumber ascii blp_10 (codes "blp") (codes "10")
unfolding normalize_catalog before_comma is_sentinel strip lstrip rstrip
blp_10-IsWordNumber = record {
  split = refl;
  real = refl;
  word = (refl, (refl, (refl, tt)));
  has_word = refl;
  number = ((refl, (1, refl)), ((refl, (0, refl)), tt));
  has_number = refl;
  short = omega arith;
}

compare_catalogs-numbers_example :
    compare_catalogs ascii blp_9 blp_10
    ≡ word_sign
        (codes "blp")
        (codes "blp")
        (number_sign (decimal ascii (codes "9")) (decimal ascii (codes "10")))
compare_catalogs-numbers_example =
    compare_catalogs-numbers ascii blp_9 blp_10 (codes "blp") (codes "blp") (codes "9") (codes "10")
      blp_9-IsWordNumber blp_10-IsWordNumber

catalog_in_range_example :
    (catalog_in_range ascii blp_9 none blp_10 ≡ true)
    ↔ (IsLe (compare_catalogs ascii none blp_9) × IsLe (compare_catalogs ascii blp_9 blp_10))
catalog_in_range_example = catalog_in_range-compare_catalogs ascii blp_9 none blp_10

none_has_no_number : has_no_number ascii (some (codes "N/A")) ≡ true
unfolding parse_key
none_has_no_number = refl

parse_key-missing_example :
    (has_no_number ascii blp_9 ≡ true
      → parse_key ascii (some (codes "N/A")) ≡ parse_key ascii blp_9)
    × (has_no_number ascii blp_9 ≡ false
        → lt catalog_order (parse_key ascii (some (codes "N/A"))) (parse_key ascii blp_9) ≡ true)
parse_key-missing_example = parse_key-missing ascii (some (codes "N/A")) blp_9 none_has_no_number

parse_key-InRange_example : All InRange (parse_key ascii (some (codes "0075992473927")))
parse_key-InRange_example = parse_key-InRange ascii (some (codes "0075992473927"))
