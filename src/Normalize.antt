-- ===== src/Normalize.antt =====
-- gruvax/estimator/normalize.py: catalog numbers as keys, their order, and the order of labels.
pub mod Key
pub mod Sentinel
pub mod Digits
pub mod Compare
pub mod Numbers
use gruvax.Base.{
  ℕ, ◌+◌, ◌*◌, ◌^◌, ◌≡◌, Bool, true, false, not, ◌&&◌, ◌||◌, Option, none, some, List, [], ◌∷◌,
  ◌++◌, map, Text, codes, text_eq, ltb, leb, ◌==◌, if◌then◌else◌, keep, any, is_nil, length,
}
use gruvax.Base.Order.{Order, lt, nat_order, pair_order, list_order}
use gruvax.Unicode.{Unicode}
use gruvax.Normalize.Key.{Token, missing, alpha, numeric, CatalogKey, catalog_order}

-- `_DIGIT_CAP` and `_DIGIT_SATURATION`.
abbrev pub digit_cap : ℕ
digit_cap = 12

abbrev pub digit_saturation : ℕ
digit_saturation = 10 ^ digit_cap

-- `_NONE_SENTINELS`.
abbrev pub none_sentinels : List Text
none_sentinels = codes "none" ∷ codes "n/a" ∷ codes "n.a." ∷ codes "?" ∷ codes "" ∷ codes "na" ∷ []

-- A run that `_TOKEN.findall` returns: letters, or digits.
pub data Run : Type 0 where
  letters : Text → Run
  digits : Text → Run

pub data CharClass : Type 0 where
  letter digit other : CharClass

-- The scanner of `findall`: the run that a character ends, and the run that goes on.
abbrev flush : Option Run → List Run
flush none = []
flush (some r) = r ∷ []

extend : CharClass → ℕ → Option Run → List Run × Option Run
extend letter c (some (letters w)) = ([], some (letters (w ++ c ∷ [])))
extend letter c run = (flush run, some (letters (c ∷ [])))
extend digit c (some (digits w)) = ([], some (digits (w ++ c ∷ [])))
extend digit c run = (flush run, some (digits (c ∷ [])))
extend other c run = (flush run, none)

module _ (u : Unicode) where
  open u use {casefold, nfkc, is_space, digit_value, sort_key}

  abbrev pub is_digit : ℕ → Bool
  is_digit c = elim (digit_value c) [ none ↦ false | some n ↦ true ]

  -- `_SEP_COLLAPSE`: `[\s\-_./]`.
  abbrev pub is_separator : ℕ → Bool
  is_separator c = is_space c || c == b'-' || c == b'_' || c == b'.' || c == b'/'

  -- `str.strip`.
  unfoldable pub lstrip : Text → Text
  lstrip [] = []
  lstrip (c ∷ s) = let rest = lstrip s in if is_space c then rest else c ∷ s

  unfoldable pub rstrip : Text → Text
  rstrip [] = []
  rstrip (c ∷ s) = let rest = rstrip s in if is_nil rest && is_space c then [] else c ∷ rest

  unfoldable pub strip : Text → Text
  unfolding lstrip rstrip
  strip s = rstrip (lstrip s)

  -- `s.split(",", 1)[0]`.
  unfoldable pub before_comma : Text → Text
  before_comma [] = []
  before_comma (c ∷ s) = let rest = before_comma s in if c == b',' then [] else c ∷ rest

  unfoldable pub label_sort_key : Option Text → List ℕ × Text
  label_sort_key none = (sort_key (casefold []), casefold [])
  label_sort_key (some label) = (sort_key (casefold label), casefold label)

  unfoldable pub normalize_catalog : Option Text → Text
  unfolding strip before_comma
  normalize_catalog none = []
  normalize_catalog (some raw) =
      let s = strip raw in
      let folded = nfkc (casefold (nfkc s)) in
      let first = if any (λ c. c == b',') folded then strip (before_comma folded) else folded in
      if is_nil s then [] else nfkc (keep (λ c. not (is_separator c)) first)

  unfoldable pub normalize_catalog_storage : Option Text → Text
  unfolding strip
  normalize_catalog_storage none = []
  normalize_catalog_storage (some raw) = let s = strip raw in if is_nil s then [] else nfkc s

  pub char_class : ℕ → CharClass
  char_class c =
      if leb b'A' c && leb c b'Z' || leb b'a' c && leb c b'z'
      then letter
      else if is_digit c
      then digit
      else other

  scan : Option Run → Text → List Run
  unfolding extend char_class
  scan run [] = flush run
  scan run (c ∷ s) = let (done, run') = extend (char_class c) c run in done ++ scan run' s

  -- `_TOKEN.findall`.
  pub find_tokens : Text → List Run
  unfolding scan
  find_tokens = scan none

  -- `int(tok)`.
  pub int_from : ℕ → Text → ℕ
  int_from n [] = n
  int_from n (c ∷ s) = int_from (elim (digit_value c) [ none ↦ n | some d ↦ n * 10 + d ]) s

  pub run_token : Run → Token
  unfolding int_from
  run_token (letters w) = alpha w
  run_token (digits w) =
      numeric (if ltb digit_cap (length w) then digit_saturation else int_from 0 w)

  unfoldable pub is_sentinel : Text → Bool
  is_sentinel normed = any (text_eq normed) none_sentinels

  unfoldable pub parse_key : Option Text → CatalogKey
  unfolding normalize_catalog find_tokens run_token is_sentinel
  parse_key catalog =
      let normed = normalize_catalog catalog in
      let tokens = find_tokens normed in
      if is_nil normed || is_sentinel normed
      then missing ∷ []
      else if is_nil tokens
      then missing ∷ []
      else map run_token tokens

-- The integers that a comparison returns.
pub data Sign : Type 0 where
  minus_one : Sign
  nought : Sign
  plus_one : Sign

module _ (u : Unicode) where
  unfoldable pub compare_catalogs : Option Text → Option Text → Sign
  compare_catalogs a b =
      let ka = parse_key u a in
      let kb = parse_key u b in
      if lt catalog_order ka kb
      then minus_one
      else if lt catalog_order kb ka
      then plus_one
      else nought

  unfoldable pub catalog_in_range : Option Text → Option Text → Option Text → Bool
  catalog_in_range catalog first_catalog last_catalog =
      let k = parse_key u catalog in
      catalog_order.le (parse_key u first_catalog) k
      && catalog_order.le k (parse_key u last_catalog)
