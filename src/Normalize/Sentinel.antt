-- ===== src/Normalize/Sentinel.antt =====
-- Catalog numbers that stand for "none" sort before all others (`_SENTINEL` of
-- gruvax/estimator/normalize.py).
use gruvax.Base.{
  ◌≡◌, Bool, true, false, ◌||◌, Option, Text, arith, if◌then◌else◌, refl, sym, ◌∙◌, List, [], ◌∷◌,
  map, is_nil,
}
use gruvax.Base.Order.{lt}
use gruvax.Unicode.{Unicode}
use gruvax.Normalize.{
  Run, letters, digits, run_token, find_tokens, normalize_catalog, is_sentinel, parse_key,
}
use gruvax.Normalize.Key.{Token, missing, CatalogKey, catalog_order}

-- No token: blank, a sentinel, or neither a letter nor a digit in it.
abbrev pub has_no_number : Unicode → Option Text → Bool
has_no_number u c =
    is_nil (normalize_catalog u c)
    || is_sentinel u (normalize_catalog u c)
    || is_nil (find_tokens u (normalize_catalog u c))

-- The branches of `parse_key`.
abbrev key_of : (Run → Token) → Bool → List Run → CatalogKey
key_of f none_like tokens =
    if none_like then missing ∷ [] else if is_nil tokens then missing ∷ [] else map f tokens

key_of_real :
    (f : Run → Token) (b : Bool) (l : List Run)
    → (b || is_nil l) ≡ false
    → (r : Run) × (rest : List Run) × (key_of f b l ≡ f r ∷ map f rest)
key_of_real f true l h = absurd (cc)
key_of_real f false [] h = absurd (cc)
key_of_real f false (r ∷ rest) h = (r, rest, refl)

module _ (u : Unicode) where
  key_missing : (c : Option Text) → has_no_number u c ≡ true → parse_key u c ≡ missing ∷ []
  unfolding parse_key
  key_missing c h = ground arith

  key_real :
      (c : Option Text)
      → has_no_number u c ≡ false
      → (r : Run) × (l : List Run) × (parse_key u c ≡ run_token u r ∷ map (run_token u) l)
  unfolding parse_key
  key_real c h =
      key_of_real (run_token u)
        (is_nil (normalize_catalog u c) || is_sentinel u (normalize_catalog u c))
        (find_tokens u (normalize_catalog u c)) h

  missing_first :
      (r : Run) (l : CatalogKey) → lt catalog_order (missing ∷ []) (run_token u r ∷ l) ≡ true
  unfolding run_token
  missing_first (letters w) l = refl
  missing_first (digits w) l = refl

  -- A catalog number that stands for "none" has a key of its own, which is strictly below the key
  -- of every catalog number that does not.
  pub parse_key-missing :
      (c d : Option Text)
      → has_no_number u c ≡ true
      → (has_no_number u d ≡ true → parse_key u c ≡ parse_key u d)
        × (has_no_number u d ≡ false → lt catalog_order (parse_key u c) (parse_key u d) ≡ true)
  parse_key-missing c d h = (
    λ k. key_missing c h ∙ sym (key_missing d k),
    λ k.
        let (r, l, e) = key_real d k in
        rw (key_missing c h, e) (missing_first r (map (run_token u) l)),
  )
