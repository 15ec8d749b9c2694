-- ===== src/Base/Bits.antt =====
-- The bits of `&` and `|` at variables: digit by digit, and extensionality for words of `w` bits.
use Prim.Native.Nat.{
  ℕ, zero, suc, ◌+◌, ◌-◌, ◌*◌, ◌/◌, ◌%◌, ◌^◌, ◌≤◌, ◌<◌, min, max, bit_and, bit_or, digits, bitwise,
  bit_and-bitwise, bit_or-bitwise,
}
use mathlib.Core.Path.{◌≡◌, refl, sym, ap, ◌∙◌}
use mathlib.Core.Bool.{false}
use alsa_gobject.Base.Tests.{◌==◌, if◌then◌else◌}
use native.Mathlib.Nat.{pow-suc}
use native.Mathlib.Omega.{arith}

-- `bitwise` splits off the lowest digit; `outer` and `op` are what it does at a zero and at two digits.
module _ (outer : ℕ → ℕ) (op : ℕ → ℕ → ℕ) where
  same_digits : (x y k l : ℕ) → x ≤ k → x ≤ l → digits outer op k x y ≡ digits outer op l x y
  same_digits zero y zero zero below above = refl
  same_digits zero y zero (suc l) below above = refl
  same_digits zero y (suc k) zero below above = refl
  same_digits zero y (suc k) (suc l) below above = refl
  same_digits (suc x) y zero l below above = absurd (omega arith)
  same_digits (suc x) y (suc k) zero below above = absurd (omega arith)
  same_digits (suc x) y (suc k) (suc l) below above =
      let half = suc x / 2 in
      let halves = same_digits half (y / 2) k l (omega arith) (omega arith) in
      ap (λ (high : ℕ). high * 2 + op (suc x % 2) (y % 2)) halves

  low_digit :
      (x y : ℕ)
      → bitwise outer op (suc x) y
        ≡ bitwise outer op (suc x / 2) (y / 2) * 2 + op (suc x % 2) (y % 2)
  low_digit x y =
      let half = suc x / 2 in
      ap (λ (high : ℕ). high * 2 + op (suc x % 2) (y % 2))
        (same_digits half (y / 2) x half (omega arith) (omega arith))

and_digit : (x y : ℕ) → bit_and x y ≡ bit_and (x / 2) (y / 2) * 2 + min (x % 2) (y % 2)
and_digit zero y = simp bit_and-bitwise (omega arith)
and_digit (suc x) y = simp bit_and-bitwise (low_digit (λ rest. 0) min x y)

or_digit : (x y : ℕ) → bit_or x y ≡ bit_or (x / 2) (y / 2) * 2 + max (x % 2) (y % 2)
or_digit zero y = simp bit_or-bitwise (omega arith)
or_digit (suc x) y = simp bit_or-bitwise (low_digit (λ rest. rest) max x y)

pub bit_and-zero : (m : ℕ) → bit_and 0 m ≡ 0
bit_and-zero m = simp bit_and-bitwise (omega arith)

bit_and-div : (a b : ℕ) → bit_and a b / 2 ≡ bit_and (a / 2) (b / 2)
bit_and-div a b = omega (arith, and_digit a b)

bit_and-mod : (a b : ℕ) → bit_and a b % 2 ≡ min (a % 2) (b % 2)
bit_and-mod a b = omega (arith, and_digit a b)

bit_or-div : (a b : ℕ) → bit_or a b / 2 ≡ bit_or (a / 2) (b / 2)
bit_or-div a b = omega (arith, or_digit a b)

bit_or-mod : (a b : ℕ) → bit_or a b % 2 ≡ max (a % 2) (b % 2)
bit_or-mod a b = omega (arith, or_digit a b)

-- `a & ~m` on words of `w` bits.
abbrev pub not_mask : ℕ → ℕ → ℕ
not_mask w m = 2 ^ w - 1 - m

not_mask-div : (w m : ℕ) → m < 2 ^ suc w → not_mask (suc w) m / 2 ≡ not_mask w (m / 2)
not_mask-div w m h = omega (arith, pow-suc 2 w)

not_mask-mod : (w m : ℕ) → m < 2 ^ suc w → not_mask (suc w) m % 2 ≡ 1 - m % 2
not_mask-mod w m h = omega (arith, pow-suc 2 w)

half-lt : (w a : ℕ) → a < 2 ^ suc w → a / 2 < 2 ^ w
half-lt w a h = omega (arith, pow-suc 2 w)

by_halves : (a b : ℕ) → a / 2 ≡ b / 2 → a % 2 ≡ b % 2 → a ≡ b
by_halves a b p q = omega arith

-- `(a & ~m) | v` on words of `w` bits: the bits of `m` are cleared before those of `v` are set.
unfoldable pub assign_bits : ℕ → ℕ → ℕ → ℕ → ℕ
assign_bits w a m v = bit_or (bit_and a (not_mask w m)) v

assign_bits-div :
    (w a m v : ℕ)
    → m < 2 ^ suc w
    → assign_bits (suc w) a m v / 2 ≡ assign_bits w (a / 2) (m / 2) (v / 2)
unfolding assign_bits
assign_bits-div w a m v h = simp (bit_or-div, bit_and-div, not_mask-div w m h)

assign_bits-mod :
    (w a m v : ℕ)
    → m < 2 ^ suc w
    → assign_bits (suc w) a m v % 2 ≡ max (min (a % 2) (1 - m % 2)) (v % 2)
unfolding assign_bits
assign_bits-mod w a m v h = simp (bit_or-mod, bit_and-mod, not_mask-mod w m h)

-- Reading back the bits that were written: what is set lies inside the mask.
pub bit_and-assign_bits :
    (w a m v : ℕ)
    → a < 2 ^ w
    → m < 2 ^ w
    → v < 2 ^ w
    → bit_and v m ≡ v
    → bit_and (assign_bits w a m v) m ≡ v
unfolding assign_bits
bit_and-assign_bits zero a m v ha hm hv sub =
    let em : m ≡ 0 = omega arith in
    let ev : v ≡ 0 = omega arith in let ea : a ≡ 0 = omega arith in rw (em, ev, ea)
bit_and-assign_bits (suc w) a m v ha hm hv sub =
    by_halves (bit_and (assign_bits (suc w) a m v) m) v
      (simp (bit_and-div, assign_bits-div w a m v hm)
        (bit_and-assign_bits w (a / 2) (m / 2) (v / 2) (half-lt w a ha) (half-lt w m hm)
          (half-lt w v hv) (sym (bit_and-div v m) ∙ ap (λ (t : ℕ). t / 2) sub)))
      (simp (bit_and-mod, assign_bits-mod w a m v hm)
        (omega (arith, bit_and-mod v m, ap (λ (t : ℕ). t % 2) sub)))

-- A field outside the mask keeps its bits.
pub bit_and-assign_bits_other :
    (w a m v n : ℕ)
    → a < 2 ^ w
    → m < 2 ^ w
    → v < 2 ^ w
    → n < 2 ^ w
    → bit_and v m ≡ v
    → bit_and m n ≡ 0
    → bit_and (assign_bits w a m v) n ≡ bit_and a n
unfolding assign_bits
bit_and-assign_bits_other zero a m v n ha hm hv hn sub apart =
    let em : m ≡ 0 = omega arith in
    let ev : v ≡ 0 = omega arith in let ea : a ≡ 0 = omega arith in rw (em, ev, ea)
bit_and-assign_bits_other (suc w) a m v n ha hm hv hn sub apart =
    by_halves (bit_and (assign_bits (suc w) a m v) n) (bit_and a n)
      (simp (bit_and-div, assign_bits-div w a m v hm)
        (bit_and-assign_bits_other w (a / 2) (m / 2) (v / 2) (n / 2) (half-lt w a ha)
          (half-lt w m hm) (half-lt w v hv) (half-lt w n hn)
          (sym (bit_and-div v m) ∙ ap (λ (t : ℕ). t / 2) sub)
          (sym (bit_and-div m n) ∙ ap (λ (t : ℕ). t / 2) apart)))
      (simp (bit_and-mod, assign_bits-mod w a m v hm)
        (omega (
          arith,
          bit_and-mod v m,
          bit_and-mod m n,
          ap (λ (t : ℕ). t % 2) sub,
          ap (λ (t : ℕ). t % 2) apart,
        )))

-- The result is a word again.
pub assign_bits-lt : (w a m v : ℕ) → a < 2 ^ w → m < 2 ^ w → v < 2 ^ w → assign_bits w a m v < 2 ^ w
unfolding assign_bits
assign_bits-lt zero a m v ha hm hv =
    let em : m ≡ 0 = omega arith in
    let ev : v ≡ 0 = omega arith in let ea : a ≡ 0 = omega arith in rw (em, ev, ea) (omega arith)
assign_bits-lt (suc w) a m v ha hm hv = omega (
  arith,
  pow-suc 2 w,
  assign_bits-div w a m v hm,
  assign_bits-lt w (a / 2) (m / 2) (v / 2) (half-lt w a ha) (half-lt w m hm) (half-lt w v hv),
)

-- The lowest two bits.
bit_and-zero_right : (k m : ℕ) → m ≤ k → bit_and m 0 ≡ 0
bit_and-zero_right zero m below = ap (λ (t : ℕ). bit_and t 0) e ∙ bit_and-zero 0
  where
    e : m ≡ 0
    e = omega arith
bit_and-zero_right (suc k) zero below = bit_and-zero 0
bit_and-zero_right (suc k) (suc m) below =
    omega (arith, and_digit (suc m) 0, bit_and-zero_right k (suc m / 2) (omega arith))

pub bit_and-one : (m : ℕ) → bit_and m 1 ≡ m % 2
bit_and-one m = omega (arith, and_digit m 1, bit_and-zero_right (m / 2) (m / 2) (omega arith))

pub bit_and-two : (m : ℕ) → bit_and m 2 ≡ m / 2 % 2 * 2
bit_and-two m = omega (arith, and_digit m 2, bit_and-one (m / 2))

pub bit_and-three : (m : ℕ) → bit_and m 3 ≡ m % 4
bit_and-three m = omega (arith, and_digit m 3, bit_and-one (m / 2))

pub bit_or-zero_right : (k m : ℕ) → m ≤ k → bit_or m 0 ≡ m
bit_or-zero_right k zero below = refl
bit_or-zero_right zero (suc m) below = absurd (omega arith)
bit_or-zero_right (suc k) (suc m) below =
    omega (arith, or_digit (suc m) 0, bit_or-zero_right k (suc m / 2) (omega arith))

-- One bit of a word, as a number.
abbrev pub bit : ℕ → ℕ → ℕ
bit zero b = b % 2
bit (suc j) b = bit j (b / 2)

two_pow-div : (j : ℕ) → 2 ^ suc j / 2 ≡ 2 ^ j
two_pow-div j = omega (arith, pow-suc 2 j)

two_pow-mod : (j : ℕ) → 2 ^ suc j % 2 ≡ 0
two_pow-mod j = omega (arith, pow-suc 2 j)

bit_and-two_pow_suc : (j b : ℕ) → bit_and b (2 ^ suc j) ≡ bit_and (b / 2) (2 ^ j) * 2
bit_and-two_pow_suc j b = and_digit b (2 ^ suc j) ∙ rw (two_pow-div j, two_pow-mod j) (omega arith)

-- `b & (1 << j)` is zero where the bit is.
pub bit_and-bit : (j b : ℕ) → (bit_and b (2 ^ j) == 0) ≡ (bit j b == 0)
bit_and-bit zero b = ap (λ (t : ℕ). t == 0) (bit_and-one b)
bit_and-bit (suc j) b =
    let half = bit_and-bit j (b / 2) in ground (arith, bit_and-two_pow_suc j b, half)

bit_or-one_div : (b : ℕ) → bit_or b 1 / 2 ≡ b / 2
bit_or-one_div b = omega (arith, or_digit b 1, bit_or-zero_right (b / 2) (b / 2) (omega arith))

bit_or-two_pow_suc_div : (i b : ℕ) → bit_or b (2 ^ suc i) / 2 ≡ bit_or (b / 2) (2 ^ i)
bit_or-two_pow_suc_div i b =
    bit_or-div b (2 ^ suc i) ∙ ap (λ (t : ℕ). bit_or (b / 2) t) (two_pow-div i)

bit_or-two_pow_suc_mod : (i b : ℕ) → bit_or b (2 ^ suc i) % 2 ≡ b % 2
bit_or-two_pow_suc_mod i b = omega (arith, bit_or-mod b (2 ^ suc i), two_pow-mod i)

pub suc_same : (i j : ℕ) → (suc i == suc j) ≡ (i == j)
suc_same i j = ground arith

pub zero_other : (j : ℕ) → (0 == suc j) ≡ false
zero_other j = ground arith

pub suc_other : (i : ℕ) → (suc i == 0) ≡ false
suc_other i = ground arith

-- `b | (1 << i)` sets this bit and leaves the others.
pub bit-bit_or : (i j b : ℕ) → bit j (bit_or b (2 ^ i)) ≡ (if i == j then 1 else bit j b)
bit-bit_or zero zero b = omega (arith, or_digit b 1)
bit-bit_or zero (suc j) b =
    rw (zero_other j, if◌then◌else◌) (ap (λ (t : ℕ). bit j t) (bit_or-one_div b))
bit-bit_or (suc i) zero b = rw (suc_other i, if◌then◌else◌) (bit_or-two_pow_suc_mod i b)
bit-bit_or (suc i) (suc j) b =
    ap (λ (t : ℕ). bit j t) (bit_or-two_pow_suc_div i b)
    ∙ bit-bit_or i j (b / 2)
    ∙ ap (λ t. if t then 1 else bit j (b / 2)) (sym (suc_same i j))

pub bit-zero : (j : ℕ) → bit j 0 ≡ 0
bit-zero zero = omega arith
bit-zero (suc j) = bit-zero j
