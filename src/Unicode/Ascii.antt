-- ===== src/Unicode/Ascii.antt =====
-- The functions restricted to ASCII, as an instance that tests and witnesses evaluate.
use gruvax.Base.{
  ℕ, ◌+◌, ◌-◌, ◌≤◌, ◌≡◌, Bool, ◌&&◌, ◌||◌, Option, none, some, ◌∷◌, map, Text, leb, if◌then◌else◌,
  [], arith, ap₂,
}
use gruvax.Unicode.{Unicode}

abbrev pub lower : ℕ → ℕ
lower c = if leb b'A' c && leb c b'Z' then c + 32 else c

lower-lower : (c : ℕ) → lower (lower c) ≡ lower c
lower-lower c = ground arith

pub map-lower_idem : (s : Text) → map lower (map lower s) ≡ map lower s
map-lower_idem [] = ground arith
map-lower_idem (c ∷ s) = ap₂ ◌∷◌ (lower-lower c) (map-lower_idem s)

abbrev pub ascii_space : ℕ → Bool
ascii_space c = leb 9 c && leb c 13 || leb 28 c && leb c 32

abbrev pub ascii_digit : ℕ → Option ℕ
ascii_digit c = if leb b'0' c && leb c b'9' then some (c - 48) else none

pub ascii_digit-le : (c n : ℕ) → ascii_digit c ≡ some n → n ≤ 9
ascii_digit-le c n h = ground arith

abbrev pub ascii : Unicode
ascii = record {
  casefold = map lower;
  casefold_idem = map-lower_idem;
  nfkc = λ s. s;
  is_space = ascii_space;
  digit_value = ascii_digit;
  digit_value-le = ascii_digit-le;
  sort_key = λ s. s;
}
