-- ===== src/Seq/ClientInfo/Attributes.antt =====
-- The attributes of the filter and whether it is used, in src/seq/client-info.c.
use alsa_gobject.Base.{
  ℕ, ◌-◌, ◌^◌, ◌<◌, bit_and, bit_or, Bool, true, false, not, ◌==◌, ◌≡◌, refl, sym, ap, ◌∙◌, arith,
}
use alsa_gobject.Base.Bits.{
  not_mask, assign_bits, bit_and-assign_bits, bit_and-assign_bits_other, bit_or-zero_right,
}
use alsa_gobject.Seq.ClientInfo.{
  ClientInfo, filter_attributes, use_filter, filter_use_event, set_property, get_filter_attributes,
  get_use_filter,
}

use_filter-kept :
    (f v : ℕ)
    → f < 2 ^ 32
    → v < 2 ^ 32
    → bit_and v (2 ^ 31 - 1) ≡ v
    → bit_and (bit_or (bit_and f filter_use_event) v) filter_use_event ≡ bit_and f filter_use_event
unfolding assign_bits
use_filter-kept f v word attributes inside =
    bit_and-assign_bits_other 32 f (2 ^ 31 - 1) v filter_use_event word (omega arith) attributes
      (omega arith) inside refl

use_filter-assigned :
    (f : ℕ)
    → f < 2 ^ 32
    → (bit_and (bit_or (bit_and f (not_mask 32 filter_use_event)) filter_use_event) filter_use_event
        ≡ filter_use_event)
      × (bit_and (bit_and f (not_mask 32 filter_use_event)) filter_use_event ≡ 0)
unfolding assign_bits
use_filter-assigned f word = (
  bit_and-assign_bits 32 f filter_use_event filter_use_event word (omega arith) (omega arith) refl,
  ap (λ (t : ℕ). bit_and t filter_use_event)
        (sym (
          bit_or-zero_right (bit_and f (not_mask 32 filter_use_event))
            (bit_and f (not_mask 32 filter_use_event)) (omega arith)))
      ∙ bit_and-assign_bits 32 f filter_use_event 0 word (omega arith) (omega arith) refl,
)

get_use_filter-set_property :
    (self : ClientInfo) (b : Bool)
    → self.filter < 2 ^ 32
    → get_use_filter (set_property self (use_filter b)) ≡ b
unfolding get_use_filter set_property
get_use_filter-set_property self true word =
    let (on, off) = use_filter-assigned self.filter word in ap (λ (t : ℕ). not (t == 0)) on
get_use_filter-set_property self false word =
    let (on, off) = use_filter-assigned self.filter word in ap (λ (t : ℕ). not (t == 0)) off

-- For attributes of the filter without the bit 31, which says whether the filter is used: the property
-- for the attributes does not give back what it was set to, but that bit alone, as it was before. To set
-- the attributes leaves the property for the use of the filter, and that one gives back what it was set to.
pub get_filter_attributes-set_property :
    (self : ClientInfo) (v : ℕ) (b : Bool)
    → self.filter < 2 ^ 32
    → v < 2 ^ 32
    → bit_and v (2 ^ 31 - 1) ≡ v
    → (get_filter_attributes (set_property self (filter_attributes v))
        ≡ bit_and self.filter filter_use_event)
      × (get_use_filter (set_property self (filter_attributes v)) ≡ get_use_filter self)
      × (get_use_filter (set_property self (use_filter b)) ≡ b)
unfolding get_filter_attributes get_use_filter set_property
get_filter_attributes-set_property self v b word attributes inside =
    let kept = use_filter-kept self.filter v word attributes inside in
    (kept, ap (λ (t : ℕ). not (t == 0)) kept, get_use_filter-set_property self b word)
