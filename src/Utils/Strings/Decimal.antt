-- ===== src/Utils/Strings/Decimal.antt =====
-- Decimal numbers in a text are read as the numbers they stand for, by src/utils/string.c.
use alsa_gobject.Base.{
  ℕ, ◌+◌, ◌-◌, ◌*◌, ◌%◌, ◌^◌, ◌<◌, true, false, if◌then◌else◌, ◌==◌, leb, some, List, [], ◌∷◌, ◌++◌,
  map, ◌≡◌, arith, le→leb,
}
use alsa_gobject.Platform.{Platform, answer}
use alsa_gobject.Utils.Strings.{
  is_space, is_digit, skip_spaces, read_sign, read_digits, is_end, check_number, long_from_string,
}

-- The number that digits stand for behind the digits of another.
abbrev pub decimal : ℕ → List ℕ → ℕ
decimal value [] = value
decimal value (d ∷ ds) = decimal (value * 10 + d) ds

abbrev pub Digits : List ℕ → Type 0
Digits [] = Unit
Digits (d ∷ ds) = (d < 10) × Digits ds

-- The characters of digits.
abbrev pub characters : List ℕ → List ℕ
characters ds = map (λ (d : ℕ). d + 48) ds

digit-character : (d : ℕ) → d < 10 → is_digit (d + 48) ≡ true
digit-character d small = rw (le→leb 48 (d + 48) (omega arith), le→leb (d + 48) 57 (omega arith))

plus_minus : (d : ℕ) → d + 48 - 48 ≡ d
plus_minus d = omega arith

read_digits-characters :
    (ds : List ℕ) (value c : ℕ) (rest : List ℕ)
    → Digits ds
    → is_digit c ≡ false
    → read_digits value true (characters ds ++ (c ∷ rest)) ≡ some (decimal value ds, true, c ∷ rest)
unfolding read_digits
read_digits-characters [] value c rest digits stop = rw (read_digits, stop)
read_digits-characters (d ∷ ds) value c rest (small, digits) stop =
    rw (read_digits, digit-character d small, plus_minus d)
      (read_digits-characters ds (value * 10 + d) c rest digits stop)

no_space : (d : ℕ) → is_space (d + 48) ≡ false
no_space d = ground arith

no_sign : (d c : ℕ) → c < 48 → (d + 48 == c) ≡ false
no_sign d c h = ground arith

below : (n m : ℕ) → n < m → leb m n ≡ false
below n m h = ground arith

-- The digits of a number that fits in the type, with a new line or a zero byte behind them, are read
-- as the number, whatever is in the memory behind them; with a minus sign in front they are read as
-- its negative in 64 bits.
pub long_from_string-decimal :
    (p : Platform) (d : ℕ) (ds : List ℕ) (stop : ℕ) (rest : List ℕ)
    → Digits (d ∷ ds)
    → is_end (stop ∷ rest) ≡ true
    → decimal 0 (d ∷ ds) < 2 ^ 63
    → (long_from_string p (characters (d ∷ ds) ++ (stop ∷ rest))
        ≡ some (answer (decimal 0 (d ∷ ds))))
      × (long_from_string p (45 ∷ (characters (d ∷ ds) ++ (stop ∷ rest)))
          ≡ some (answer ((2 ^ 64 - decimal 0 (d ∷ ds)) % 2 ^ 64)))
unfolding long_from_string check_number read_digits read_sign skip_spaces
long_from_string-decimal p d ds stop rest (small, digits) last fits =
    let value = decimal 0 (d ∷ ds) in
    let stopped : is_digit stop ≡ false = ground (arith, last) in
    let scanned : read_digits 0 false (characters (d ∷ ds) ++ (stop ∷ rest))
        ≡ some (value, true, stop ∷ rest) =
      rw (read_digits, digit-character d small, plus_minus d)
        (read_digits-characters ds (0 * 10 + d) stop rest digits stopped) in
    let plain : read_sign (skip_spaces (characters (d ∷ ds) ++ (stop ∷ rest)))
        ≡ (false, characters (d ∷ ds) ++ (stop ∷ rest)) =
      rw (no_space d, no_sign d 45 (omega arith), no_sign d 43 (omega arith), if◌then◌else◌) in
    (
      rw (plain, scanned, below value (2 ^ 63) fits, last, if◌then◌else◌),
      rw (scanned, below value (2 ^ 63 + 1) (omega arith), last, if◌then◌else◌),
    )
