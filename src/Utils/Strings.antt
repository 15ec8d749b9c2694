-- ===== src/Utils/Strings.antt =====
-- src/utils/string.c: numbers in a text that ends with a zero byte. A text is the bytes from its start
-- to the end of the memory that holds it; to read behind these is undefined, `none`. A number of the
-- type `long` is a word of 64 bits.
pub mod Decimal
use alsa_gobject.Base.{
  ℕ, zero, suc, ◌+◌, ◌-◌, ◌*◌, ◌%◌, ◌^◌, Bool, true, false, ◌&&◌, ◌||◌, if◌then◌else◌, ◌==◌, leb,
  ltb, Option, none, some, List, [], ◌∷◌,
}
use alsa_gobject.Platform.{Platform, Reply, answer, errno}

abbrev pub is_space : ℕ → Bool
is_space c = c == 32 || (leb 9 c && leb c 13)

abbrev pub is_digit : ℕ → Bool
is_digit c = leb 48 c && leb c 57

-- What is found behind leading spaces.
unfoldable pub skip_spaces : List ℕ → List ℕ
skip_spaces [] = []
skip_spaces (c ∷ cs) = if is_space c then skip_spaces cs else c ∷ cs

-- Whether a sign says that the number is negative, and what is behind it.
unfoldable pub read_sign : List ℕ → Bool × List ℕ
read_sign [] = (false, [])
read_sign (c ∷ cs) =
    if c == 45 then (true, cs) else (if c == 43 then (false, cs) else (false, c ∷ cs))

-- The number that digits continue, whether there is one, and the text behind them.
unfoldable pub read_digits : ℕ → Bool → List ℕ → Option (ℕ × Bool × List ℕ)
read_digits value some_digit [] = none
read_digits value some_digit (c ∷ cs) = elim (is_digit c) [
  | true ↦ read_digits (value * 10 + (c - 48)) true cs
  | false ↦ some (value, some_digit, c ∷ cs)
]

abbrev pub is_end : List ℕ → Bool
is_end [] = false
is_end (c ∷ cs) = c == 0 || c == 10

module _ (p : Platform) where
  -- What becomes of the digits that were read: a number outside the type is an error, and so is a text
  -- without a digit, and one in which another byte than a zero or a new line follows.
  unfoldable pub check_number : Bool → Option (ℕ × Bool × List ℕ) → Option (Reply ℕ)
  check_number negative none = none
  check_number negative (some (value, some_digit, rest)) =
      if leb (if negative then 2 ^ 63 + 1 else 2 ^ 63) value
      then some (errno (p.erange))
      else (if some_digit && is_end rest
          then some (answer (if negative then (2 ^ 64 - value) % 2 ^ 64 else value))
          else some (errno (p.einval)))

  -- The number that `strtol` returns in the base 10.
  unfoldable pub long_from_string : List ℕ → Option (Reply ℕ)
  long_from_string literal =
      let (negative, unsigned) = read_sign (skip_spaces literal) in
      check_number negative (read_digits 0 false unsigned)
