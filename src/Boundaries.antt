-- ===== src/Boundaries.antt =====
-- gruvax/estimator/boundary_cache.py: the cut points of the cubes and the width overrides, with a
-- counter of publications.
pub mod Generation
use gruvax.Base.{
  ℕ, suc, ◌+◌, ◌≡◌, Bool, true, false, ◌&&◌, ◌==◌, Option, none, some, List, [], ◌∷◌, Text, text_eq,
  text_eq_refl, text_eq_sound, arith, refl, if◌then◌else◌,
}
use gruvax.Base.Dict.{KeyTest, get, put}
use gruvax.Base.Ratio.{Ratio}

pub record BoundaryRow : Type 0 where
  pub unit_id : ℕ
  pub row : ℕ
  pub col : ℕ
  pub first_label : Option Text
  pub first_catalog : Option Text
  pub is_empty : Bool

-- (unit_id, row, col, label).
abbrev pub OverrideKey : Type 0
OverrideKey = ℕ × ℕ × ℕ × Text

abbrev pub Overrides : Type 0
Overrides = List (OverrideKey × Ratio)

abbrev pub key_eq : OverrideKey → OverrideKey → Bool
key_eq (u, r, c, l) (u', r', c', l') = u == u' && r == r' && c == c' && text_eq l l'

pub key_eq_refl : (k : OverrideKey) → key_eq k k ≡ true
key_eq_refl (u, r, c, l) = ground (arith, text_eq_refl l)

pub key_eq_sound : (j k : OverrideKey) → key_eq j k ≡ true → j ≡ k
key_eq_sound (u, r, c, l) (u', r', c', l') h = ground (arith, text_eq_sound l l')

abbrev pub override_key : KeyTest OverrideKey
override_key = record { same = key_eq; same_refl = key_eq_refl; same_sound = key_eq_sound }

pub record BoundaryCache : Type 0 where
  pub generation : ℕ
  pub rows : List BoundaryRow
  pub overrides : Overrides

-- `BoundaryCache()`.
abbrev pub empty : BoundaryCache
empty = record { generation = 0; rows = []; overrides = [] }

-- The dict comprehension over the rows of the second SELECT.
unfoldable pub to_overrides : Overrides → Overrides → Overrides
to_overrides d [] = d
to_overrides d ((key, fraction) ∷ rows) = to_overrides (put override_key key fraction d) rows

-- `load`: `none` is a SELECT that raises. Both results are in hand before either is published; the
-- flag says whether the call returned.
unfoldable pub load :
    Option (List BoundaryRow) → Option Overrides → BoundaryCache → BoundaryCache × Bool
load none overrides_raw cache = (cache, false)
load (some rows) none cache = (cache, false)
load (some rows) (some overrides_raw) cache = (
  record {
    generation = cache.generation + 1;
    rows = rows;
    overrides = to_overrides [] overrides_raw;
  },
  true,
)

unfoldable pub publish_from : BoundaryCache → BoundaryCache → BoundaryCache
publish_from prepared cache = record {
  generation = cache.generation + 1;
  rows = prepared.rows;
  overrides = prepared.overrides;
}

unfoldable pub load_rows : List BoundaryRow → BoundaryCache → BoundaryCache
load_rows rows cache = record cache { generation = cache.generation + 1; rows = rows }

unfoldable pub load_overrides : Overrides → BoundaryCache → BoundaryCache
load_overrides overrides cache = record cache {
  generation = cache.generation + 1;
  overrides = overrides;
}

unfoldable pub invalidate : BoundaryCache → BoundaryCache
invalidate cache = record { generation = cache.generation + 1; rows = []; overrides = [] }
