-- ===== src/Seq/SubscribeData/Properties.antt =====
-- The flags of src/seq/subscribe-data.c stand for properties that do not touch one another.
use alsa_gobject.Base.{
  ℕ, ◌^◌, ◌<◌, bit_and, Bool, true, false, not, if◌then◌else◌, ◌==◌, ◌≡◌, refl, sym, ap, ◌∙◌, arith,
}
use alsa_gobject.Base.Bits.{
  not_mask, assign_bits, bit_and-assign_bits, bit_and-assign_bits_other, bit_or-zero_right,
}
use alsa_gobject.Seq.Query.{PortSubscribe}
use alsa_gobject.Seq.SubscribeData.{
  Setting, sender, destination, is_exclusive, has_tstamp, tstamp_mode, queue_id, TstampMode, tick,
  real, is_real, set_flag, has_flag, subs_exclusive, subs_timestamp, subs_time_real, set_property,
  Subscription, get_properties,
}

-- What is set in the abstract: one property changes, the others stay.
abbrev pub written : Subscription → Setting → Subscription
written s (sender addr) = record s { sender = addr }
written s (destination addr) = record s { destination = addr }
written s (is_exclusive b) = record s { exclusive = b }
written s (has_tstamp b) = record s { tstamp = b }
written s (tstamp_mode m) = record s { mode = m }
written s (queue_id v) = record s { queue = v }

-- The bits of a mask are given by a truth value.
abbrev pub mask_if : ℕ → Bool → ℕ
mask_if m b = if b then m else 0

set_flag-assign_bits : (f m : ℕ) (b : Bool) → set_flag f m b ≡ assign_bits 32 f m (mask_if m b)
unfolding assign_bits
set_flag-assign_bits f m true = refl
set_flag-assign_bits f m false =
    let cleared = bit_and f (not_mask 32 m) in sym (bit_or-zero_right cleared cleared (omega arith))

mask_if-lt : (m : ℕ) (b : Bool) → m < 2 ^ 32 → mask_if m b < 2 ^ 32
mask_if-lt m true h = h
mask_if-lt m false h = omega arith

mask_if-inside :
    (m : ℕ) (b : Bool) → bit_and m m ≡ m → bit_and 0 m ≡ 0 → bit_and (mask_if m b) m ≡ mask_if m b
mask_if-inside m true e z = e
mask_if-inside m false e z = z

mask_if-zero : (m : ℕ) (b : Bool) → (m == 0) ≡ false → not (mask_if m b == 0) ≡ b
mask_if-zero m true positive = ap (λ t. not t) positive
mask_if-zero m false positive = refl

module _ (f m : ℕ) (b : Bool) (word : f < 2 ^ 32) (small : m < 2 ^ 32) (own : bit_and m m ≡ m)
    (zero_own : bit_and 0 m ≡ 0) where
  pub has_flag-set_flag : (m == 0) ≡ false → has_flag (set_flag f m b) m ≡ b
  has_flag-set_flag positive =
      ap (λ (t : ℕ). not (bit_and t m == 0)) (set_flag-assign_bits f m b)
      ∙ ap (λ (t : ℕ). not (t == 0))
          (bit_and-assign_bits 32 f m (mask_if m b) word small (mask_if-lt m b small)
            (mask_if-inside m b own zero_own))
      ∙ mask_if-zero m b positive

  pub has_flag-set_flag_other :
      (n : ℕ) → n < 2 ^ 32 → bit_and m n ≡ 0 → has_flag (set_flag f m b) n ≡ has_flag f n
  has_flag-set_flag_other n little apart =
      ap (λ (t : ℕ). not (bit_and t n == 0)) (set_flag-assign_bits f m b)
      ∙ ap (λ (t : ℕ). not (t == 0))
          (bit_and-assign_bits_other 32 f m (mask_if m b) n word small (mask_if-lt m b small) little
            (mask_if-inside m b own zero_own) apart)

-- The properties of a structure with other flags.
abbrev pub with_bits : PortSubscribe → Bool → Bool → Bool → Subscription
with_bits self exclusive tstamp time_real = record {
  sender = self.sender;
  destination = self.dest;
  exclusive = exclusive;
  tstamp = tstamp;
  mode = if time_real then real else tick;
  queue = self.queue;
}

with_bits-Path :
    (self : PortSubscribe) {a b c x y z : Bool}
    → a ≡ x
    → b ≡ y
    → c ≡ z
    → with_bits self a b c ≡ with_bits self x y z
with_bits-Path self {a} {b} {c} {x} {y} {z} p q r =
    ap (λ t. with_bits self t b c) p
    ∙ ap (λ t. with_bits self x t c) q
    ∙ ap (λ t. with_bits self x y t) r

pub mode_of : (m : TstampMode) → (if is_real m then real else tick) ≡ m
mode_of tick = refl
mode_of real = refl

-- The structure implements six properties that do not touch one another, three of them in one word of
-- flags: behind a setting, the property that is set has the new value, and the five others have the
-- values that they had.
pub get_properties-set_property :
    (self : PortSubscribe) (s : Setting)
    → self.flags < 2 ^ 32
    → get_properties (set_property self s) ≡ written (get_properties self) s
unfolding get_properties set_property
get_properties-set_property self (sender addr) word = refl
get_properties-set_property self (destination addr) word = refl
get_properties-set_property self (queue_id v) word = refl
get_properties-set_property self (is_exclusive b) word =
    let small : subs_exclusive < 2 ^ 32 = omega arith in
    let other = has_flag-set_flag_other self.flags subs_exclusive b word small refl refl in
    with_bits-Path self (has_flag-set_flag self.flags subs_exclusive b word small refl refl refl)
      (other subs_timestamp (omega arith) refl) (other subs_time_real (omega arith) refl)
get_properties-set_property self (has_tstamp b) word =
    let small : subs_timestamp < 2 ^ 32 = omega arith in
    let other = has_flag-set_flag_other self.flags subs_timestamp b word small refl refl in
    with_bits-Path self (other subs_exclusive (omega arith) refl)
      (has_flag-set_flag self.flags subs_timestamp b word small refl refl refl)
      (other subs_time_real (omega arith) refl)
get_properties-set_property self (tstamp_mode m) word =
    let small : subs_time_real < 2 ^ 32 = omega arith in
    let other =
      has_flag-set_flag_other self.flags subs_time_real (is_real m) word small refl refl in
    with_bits-Path self (other subs_exclusive (omega arith) refl)
      (other subs_timestamp (omega arith) refl)
      (has_flag-set_flag self.flags subs_time_real (is_real m) word small refl refl refl)
    ∙ ap
        (λ t. record {
          sender = self.sender;
          destination = self.dest;
          exclusive = has_flag self.flags subs_exclusive;
          tstamp = has_flag self.flags subs_timestamp;
          mode = t;
          queue = self.queue;
        })
        (mode_of m)
