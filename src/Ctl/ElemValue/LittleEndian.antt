-- ===== src/Ctl/ElemValue/LittleEndian.antt =====
-- Words with the lowest byte first, as a processor of the kind stores them.
use alsa_gobject.Base.{
  ℕ, zero, suc, ◌+◌, ◌*◌, ◌/◌, ◌%◌, ◌^◌, ◌<◌, List, [], ◌∷◌, length, replicate, ◌≡◌, refl, ap,
  arith,
}
use alsa_gobject.Ctl.ElemValue.{WordLayout}
use native.Mathlib.Nat.{pow-suc}

abbrev pub bytes_of : ℕ → ℕ → List ℕ
bytes_of zero v = []
bytes_of (suc n) v = v % 256 ∷ bytes_of n (v / 256)

abbrev pub word_of : List ℕ → ℕ
word_of [] = 0
word_of (b ∷ bs) = word_of bs * 256 + b

pub length-bytes_of : (n v : ℕ) → length (bytes_of n v) ≡ n
length-bytes_of zero v = refl
length-bytes_of (suc n) v = ap suc (length-bytes_of n (v / 256))

eight : (n : ℕ) → 2 ^ (8 * suc n) ≡ 2 ^ (suc (suc (suc (suc (suc (suc (suc (suc (8 * n)))))))))
eight n = ap (λ (t : ℕ). 2 ^ t) (omega arith)

pow_byte : (m : ℕ) → 2 ^ (suc (suc (suc (suc (suc (suc (suc (suc m)))))))) ≡ 256 * 2 ^ m
pow_byte m = omega (
  arith,
  pow-suc 2 m,
  pow-suc 2 (suc m),
  pow-suc 2 (suc (suc m)),
  pow-suc 2 (suc (suc (suc m))),
  pow-suc 2 (suc (suc (suc (suc m)))),
  pow-suc 2 (suc (suc (suc (suc (suc m))))),
  pow-suc 2 (suc (suc (suc (suc (suc (suc m)))))),
  pow-suc 2 (suc (suc (suc (suc (suc (suc (suc m))))))),
)

pub word_of-bytes_of : (n v : ℕ) → v < 2 ^ (8 * n) → word_of (bytes_of n v) ≡ v
word_of-bytes_of zero v small = omega arith
word_of-bytes_of (suc n) v small =
    let high : v / 256 < 2 ^ (8 * n) = omega (arith, pow_byte (8 * n), eight n) in
    omega (arith, word_of-bytes_of n (v / 256) high)

pub word_of-zeros : (n : ℕ) → word_of (replicate n 0) ≡ 0
word_of-zeros zero = refl
word_of-zeros (suc n) = omega (arith, word_of-zeros n)

abbrev pub little_endian : ℕ → WordLayout
little_endian n = record {
  size = n;
  encode = bytes_of n;
  decode = word_of;
  length-encode = length-bytes_of n;
  decode-encode = word_of-bytes_of n;
  decode-zeros = word_of-zeros n;
}
