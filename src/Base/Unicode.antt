-- ===== src/Base/Unicode.antt =====
-- The classes of runes that the program asks the package unicode for. There is no table of them here:
-- they are a parameter.
use Prim.Native.Nat.{ℕ}
use mathlib.Core.Bool.{Bool}

pub record Unicode : Type 0 where
  -- unicode.IsLetter, \p{L}
  pub is_letter : ℕ → Bool
  -- unicode.IsNumber, \p{N}
  pub is_number : ℕ → Bool
  -- unicode.IsDigit, \p{Nd}
  pub is_digit : ℕ → Bool
  -- unicode.Is of Cyrillic, Han, Hiragana or Katakana
  pub is_wide : ℕ → Bool
