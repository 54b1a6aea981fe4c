-- ===== src/Unicode.antt =====
-- The Unicode functions of Python and of pyuca that gruvax/estimator/normalize.py calls: the
-- library's tables are no code of the repository, so they are parameters.
pub mod Ascii
use gruvax.Base.{ℕ, ◌≤◌, ◌≡◌, Bool, Option, some, List, Text}

pub record Unicode : Type 0 where
  -- `str.casefold`: full case folding is idempotent (The Unicode Standard, section 3.13).
  pub casefold : Text → Text
  pub casefold_idem : (s : Text) → casefold (casefold s) ≡ casefold s
  -- `unicodedata.normalize("NFKC", s)`.
  pub nfkc : Text → Text
  -- `str.isspace` of one character, which `strip` and the `\s` of `re` use.
  pub is_space : ℕ → Bool
  -- The value of a decimal digit (category Nd), which `\d` and `int` use.
  pub digit_value : ℕ → Option ℕ
  pub digit_value-le : (c n : ℕ) → digit_value c ≡ some n → n ≤ 9
  -- `Collator().sort_key`.
  pub sort_key : Text → List ℕ
