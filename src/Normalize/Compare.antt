-- ===== src/Normalize/Compare.antt =====
-- `catalog_in_range` of gruvax/estimator/normalize.py, by `compare_catalogs`.
use gruvax.Base.{◌≡◌, ◌≢◌, ◌↔◌, true, Option, Text, arith, if◌then◌else◌, ◌&&◌}
use gruvax.Base.Order.{Order, lt}
use gruvax.Unicode.{Unicode}
use gruvax.Normalize.{
  parse_key, compare_catalogs, catalog_in_range, Sign, minus_one, nought, plus_one,
}
use gruvax.Normalize.Key.{catalog_order}

-- `s <= 0`.
abbrev pub IsLe : Sign → Type 0
IsLe s = s ≢ plus_one

-- The comparison over any total order.
module _ {K : Type 0} (o : Order K) where
  abbrev compare : K → K → Sign
  compare a b = if lt o a b then minus_one else if lt o b a then plus_one else nought

  compare-IsLe : (a b : K) → IsLe (compare a b) → o.le a b ≡ true
  compare-IsLe a b h = ground (arith, o.total a b)

  IsLe-compare : (a b : K) → o.le a b ≡ true → IsLe (compare a b)
  IsLe-compare a b h = ground (arith, o.total a b)

  in_range_iff :
      (a b c : K) → ((o.le a b && o.le b c) ≡ true) ↔ (IsLe (compare a b) × IsLe (compare b c))
  in_range_iff a b c = (
    λ h. (IsLe-compare a b (ground arith), IsLe-compare b c (ground arith)),
    λ h. ground (arith, compare-IsLe a b h.0, compare-IsLe b c h.1),
  )

module _ (u : Unicode) where
  -- `catalog_in_range` holds exactly when `compare_catalogs` puts the first bound at or before the
  -- catalog number, and the catalog number at or before the last bound.
  pub catalog_in_range-compare_catalogs :
      (catalog first last : Option Text)
      → (catalog_in_range u catalog first last ≡ true)
        ↔ (IsLe (compare_catalogs u first catalog) × IsLe (compare_catalogs u catalog last))
  unfolding catalog_in_range compare_catalogs
  catalog_in_range-compare_catalogs catalog first last =
      in_range_iff catalog_order (parse_key u first) (parse_key u catalog) (parse_key u last)
