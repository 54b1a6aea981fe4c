-- ===== src/Normalize/Key.antt =====
-- The keys that `parse_key` of gruvax/estimator/normalize.py returns, and Python's order on them.
use gruvax.Base.{ℕ, ◌≡◌, refl, ap, Bool, true, false, List, Text, leb, arith, if◌then◌else◌}
use gruvax.Base.Order.{
  Order, nat_order, list_order, list_total, list_trans, list_antisym, leb_total, leb_trans,
  leb_antisym,
}

-- `(-1, 0)`, `(0, word)` and `(1, number)`.
pub data Token : Type 0 where
  missing : Token
  alpha : Text → Token
  numeric : ℕ → Token

abbrev pub CatalogKey : Type 0
CatalogKey = List Token

-- The type tag, raised by one.
abbrev tag : Token → ℕ
tag missing = 0
tag (alpha w) = 1
tag (numeric n) = 2

-- Two values under one tag.
abbrev value_le : Token → Token → Bool
value_le (alpha v) (alpha w) = (list_order nat_order).le v w
value_le (numeric m) (numeric n) = leb m n
value_le _ _ = true

abbrev pub token_le : Token → Token → Bool
token_le a b =
    if leb (tag a) (tag b) then (if leb (tag b) (tag a) then value_le a b else true) else false

pub token_total : (a b : Token) → token_le a b ≡ false → token_le b a ≡ true
token_total missing b h = ground arith
token_total (alpha v) missing h = refl
token_total (alpha v) (alpha w) h = list_total nat_order v w h
token_total (alpha v) (numeric n) h = ground arith
token_total (numeric m) missing h = refl
token_total (numeric m) (alpha w) h = refl
token_total (numeric m) (numeric n) h = leb_total m n h

pub token_trans : (a b c : Token) → token_le a b ≡ true → token_le b c ≡ true → token_le a c ≡ true
token_trans missing b c h k = ground arith
token_trans (alpha u) missing c h k = ground arith
token_trans (alpha u) (alpha v) missing h k = ground arith
token_trans (alpha u) (alpha v) (alpha w) h k = list_trans nat_order u v w h k
token_trans (alpha u) (alpha v) (numeric n) h k = refl
token_trans (alpha u) (numeric n) missing h k = ground arith
token_trans (alpha u) (numeric n) (alpha w) h k = ground arith
token_trans (alpha u) (numeric n) (numeric m) h k = refl
token_trans (numeric l) missing c h k = ground arith
token_trans (numeric l) (alpha v) c h k = ground arith
token_trans (numeric l) (numeric m) missing h k = ground arith
token_trans (numeric l) (numeric m) (alpha w) h k = ground arith
token_trans (numeric l) (numeric m) (numeric n) h k = leb_trans l m n h k

pub token_antisym : (a b : Token) → token_le a b ≡ true → token_le b a ≡ true → a ≡ b
token_antisym missing missing h k = refl
token_antisym missing (alpha w) h k = ground arith
token_antisym missing (numeric n) h k = ground arith
token_antisym (alpha v) missing h k = ground arith
token_antisym (alpha v) (alpha w) h k = ap alpha (list_antisym nat_order v w h k)
token_antisym (alpha v) (numeric n) h k = ground arith
token_antisym (numeric m) missing h k = ground arith
token_antisym (numeric m) (alpha w) h k = ground arith
token_antisym (numeric m) (numeric n) h k = ap numeric (leb_antisym m n h k)

abbrev pub token_order : Order Token
token_order = record {
  le = token_le;
  total = token_total;
  trans = token_trans;
  antisym = token_antisym;
}

-- Tuples of tokens, compared as Python compares tuples.
abbrev pub catalog_order : Order CatalogKey
catalog_order = list_order token_order
