-- ===== src/Normalize/Numbers.antt =====
-- Catalog numbers of letters and digits, such as those of "BLP 9" and "BLP 10", are compared by
-- `compare_catalogs` (gruvax/estimator/normalize.py) by their letters and then by the value of their
-- digits.
use gruvax.Base.{
  ℕ, suc, ◌+◌, ◌*◌, ◌^◌, ◌≤◌, ◌≡◌, sym, ap, ◌∙◌, Bool, true, false, ◌&&◌, ◌||◌, Option, none, some,
  [], ◌∷◌, ◌++◌, Text, All, length, leb, ltb, if◌then◌else◌, arith, is_nil,
}
use native.Mathlib.Nat.{pow-suc}
use mathlib.Core.List.{append_assoc, append-nil}
use gruvax.Base.Order.{lt, nat_order, list_order}
use gruvax.Unicode.{Unicode}
use gruvax.Normalize.{
  letters, digits, letter, digit, char_class, extend, scan, find_tokens, run_token, int_from,
  digit_cap, normalize_catalog, is_sentinel, parse_key, compare_catalogs, Sign, minus_one, nought,
  plus_one,
}
use gruvax.Normalize.Key.{alpha, numeric, catalog_order}

-- A letter of ASCII, in either case.
abbrev pub is_ascii_letter : ℕ → Bool
is_ascii_letter c = leb 65 c && leb c 90 || leb 97 c && leb c 122

abbrev pub digit_or_zero : Option ℕ → ℕ
digit_or_zero none = 0
digit_or_zero (some n) = n

abbrev pub number_sign : ℕ → ℕ → Sign
number_sign m n = if ltb m n then minus_one else if ltb n m then plus_one else nought

-- By the words, and by the numbers where the words are the same.
abbrev pub word_sign : Text → Text → Sign → Sign
word_sign v w numbers =
    if lt (list_order nat_order) v w
    then minus_one
    else if lt (list_order nat_order) w v
    then plus_one
    else numbers

horner : (n d k rest : ℕ) → (n * 10 + d) * 10 ^ k + rest ≡ n * 10 ^ suc k + (d * 10 ^ k + rest)
horner n d k rest = rw pow-suc (omega arith)

module _ (u : Unicode) where
  -- A decimal digit that is no letter.
  abbrev pub IsDecimal : ℕ → Type 0
  IsDecimal c = (is_ascii_letter c ≡ false) × ((n : ℕ) × (u.digit_value c ≡ some n))

  -- The value of digits in base ten.
  pub decimal : Text → ℕ
  decimal [] = 0
  decimal (c ∷ s) = digit_or_zero (u.digit_value c) * 10 ^ length s + decimal s

  class-letter : (c : ℕ) → is_ascii_letter c ≡ true → char_class u c ≡ letter
  unfolding char_class
  class-letter c h = ground (arith, h)

  class-digit : (c : ℕ) → IsDecimal c → char_class u c ≡ digit
  unfolding char_class
  class-digit c (h, (n, e)) = ground (arith, h, e)

  scan-letters :
      (x w s : Text)
      → All (λ c. is_ascii_letter c ≡ true) w
      → scan u (some (letters x)) (w ++ s) ≡ scan u (some (letters (x ++ w))) s
  unfolding scan extend
  scan-letters x [] s h = ap (λ y. scan u (some (letters y)) s) (sym (append-nil x))
  scan-letters x (c ∷ w) s h = rw (class-letter c h.0) (
      scan-letters (x ++ c ∷ []) w s h.1
      ∙ ap (λ y. scan u (some (letters y)) s) (append_assoc x (c ∷ []) w))

  scan-digits : (x s : Text) → All IsDecimal s → scan u (some (digits x)) s ≡ digits (x ++ s) ∷ []
  unfolding scan extend
  scan-digits x [] h = ap (λ y. digits y ∷ []) (sym (append-nil x))
  scan-digits x (c ∷ s) h =
      rw (class-digit c h.0)
        (scan-digits (x ++ c ∷ []) s h.1 ∙ ap (λ y. digits y ∷ []) (append_assoc x (c ∷ []) s))

  -- Two runs.
  find_tokens-word :
      (c d : ℕ) (w s : Text)
      → All (λ c. is_ascii_letter c ≡ true) (c ∷ w)
      → All IsDecimal (d ∷ s)
      → find_tokens u ((c ∷ w) ++ d ∷ s) ≡ letters (c ∷ w) ∷ digits (d ∷ s) ∷ []
  unfolding find_tokens scan extend
  find_tokens-word c d w s h k = rw (class-letter c h.0) (
      scan-letters (c ∷ []) w (d ∷ s) h.1
      ∙ rw (class-digit d k.0) (ap (λ l. letters (c ∷ w) ∷ l) (scan-digits (d ∷ []) s k.1)))

  int-decimal :
      (n : ℕ) (s : Text) → All IsDecimal s → int_from u n s ≡ n * 10 ^ length s + decimal s
  unfolding int_from decimal
  int-decimal n [] h = omega arith
  int-decimal n (c ∷ s) h =
      rw h.0.1.1 (int-decimal (n * 10 + h.0.1.0) s h.1 ∙ horner n h.0.1.0 (length s) (decimal s))

  -- The normalized catalog number is a word of ASCII letters and a number of decimal digits, both of
  -- them there; it is no placeholder, and the digits are not above the cap.
  pub record IsWordNumber (catalog : Option Text) (w s : Text) : Type 0 where
    pub split : normalize_catalog u catalog ≡ w ++ s
    pub real : is_sentinel u (w ++ s) ≡ false
    pub word : All (λ c. is_ascii_letter c ≡ true) w
    pub has_word : is_nil w ≡ false
    pub number : All IsDecimal s
    pub has_number : is_nil s ≡ false
    pub short : length s ≤ digit_cap

  -- The key of a text of letters and then digits.
  key-word :
      (catalog : Option Text) (c d : ℕ) (w s : Text)
      → normalize_catalog u catalog ≡ (c ∷ w) ++ d ∷ s
      → is_sentinel u ((c ∷ w) ++ d ∷ s) ≡ false
      → All (λ c. is_ascii_letter c ≡ true) (c ∷ w)
      → All IsDecimal (d ∷ s)
      → length (d ∷ s) ≤ digit_cap
      → parse_key u catalog ≡ alpha (c ∷ w) ∷ numeric (decimal (d ∷ s)) ∷ []
  unfolding parse_key run_token
  key-word catalog c d w s e real h k short =
      rw (e, real, find_tokens-word c d w s h k)
        (ap (λ n. alpha (c ∷ w) ∷ numeric n ∷ []) (ground (arith, short, int-decimal 0 (d ∷ s) k)))

sign-le :
    (v w : Text) (m n : ℕ)
    → (if lt catalog_order (alpha v ∷ numeric m ∷ []) (alpha w ∷ numeric n ∷ [])
        then minus_one
        else if lt catalog_order (alpha w ∷ numeric n ∷ []) (alpha v ∷ numeric m ∷ [])
        then plus_one
        else nought)
      ≡ word_sign v w (number_sign m n)
sign-le v w m n = ground (arith, (list_order nat_order).total v w)

module _ (u : Unicode) where
  key-IsWordNumber :
      (catalog : Option Text) (w s : Text)
      → IsWordNumber u catalog w s
      → parse_key u catalog ≡ alpha w ∷ numeric (decimal u s) ∷ []
  key-IsWordNumber catalog [] s h = ground (arith, h.has_word)
  key-IsWordNumber catalog (c ∷ w) [] h = ground (arith, h.has_number)
  key-IsWordNumber catalog (c ∷ w) (d ∷ s) h =
      key-word u catalog c d w s h.split h.real h.word h.number h.short

  -- Let two catalog numbers be normalized to a word of ASCII letters, of either case, and a number of at
  -- most twelve decimal digits, none of them such a letter, where neither part is empty and the whole is
  -- no placeholder. `compare_catalogs`
  -- then gives the sign of their order: -1 if the first word is before the second in code points, 1 if
  -- it is behind, and for the same word -1, 0 or 1 as the value of the first number, in base ten, is
  -- less than, equal to or greater than that of the second.
  pub compare_catalogs-numbers :
      (a b : Option Text) (v w s t : Text)
      → IsWordNumber u a v s
      → IsWordNumber u b w t
      → compare_catalogs u a b ≡ word_sign v w (number_sign (decimal u s) (decimal u t))
  unfolding compare_catalogs
  compare_catalogs-numbers a b v w s t h k =
      rw (key-IsWordNumber a v s h, key-IsWordNumber b w t k)
        (sign-le v w (decimal u s) (decimal u t))
