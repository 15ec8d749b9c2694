-- ===== src/Seq/ClientInfo.antt =====
-- src/seq/client-info.c: the information of a client. An identifier of the class that only stores or
-- gives a member of the structure has that member; the others are written out.
mod Tests
pub mod Filter
pub mod Attributes
use alsa_gobject.Base.{
  ℕ, zero, suc, ◌+◌, ◌-◌, ◌/◌, ◌%◌, ◌^◌, bit_and, bit_or, Bool, true, false, not, ◌&&◌,
  if◌then◌else◌, ◌==◌, ltb, List, [], ◌∷◌, get_or, take, replicate,
}
use alsa_gobject.Base.Bits.{not_mask}

-- `struct snd_seq_client_info`
pub record ClientInfo : Type 0 where
  pub client : ℕ
  pub client_type : ℕ
  pub name : List ℕ
  pub filter : ℕ
  pub event_filter : List ℕ
  pub num_ports : ℕ
  pub event_lost : ℕ

-- `SNDRV_SEQ_FILTER_USE_EVENT`, the bit 31.
abbrev pub filter_use_event : ℕ
filter_use_event = 2 ^ 31

-- A property of the class with the value that it is set to.
pub data Setting : Type 0 where
  client_id client_type filter_attributes lost_count : ℕ → Setting
  name : List ℕ → Setting
  use_filter : Bool → Setting

unfoldable pub new : ClientInfo
new = record {
  client = 0;
  client_type = 0;
  name = [];
  filter = 0;
  event_filter = replicate 32 0;
  num_ports = 0;
  event_lost = 0;
}

-- The name has 64 bytes, one of which is for the zero byte.
unfoldable pub set_property : ClientInfo → Setting → ClientInfo
set_property self (client_id v) = record self { client = v }
set_property self (client_type v) = record self { client_type = v }
set_property self (name text) = record self { name = take 63 text }
set_property self (filter_attributes v) = record self {
  filter = bit_or (bit_and (self.filter) filter_use_event) v;
}
set_property self (use_filter v) =
    let cleared = bit_and (self.filter) (not_mask 32 filter_use_event) in
    record self { filter = if v then bit_or cleared filter_use_event else cleared }
set_property self (lost_count v) = record self { event_lost = v }

unfoldable pub get_filter_attributes : ClientInfo → ℕ
get_filter_attributes self = bit_and (self.filter) filter_use_event

unfoldable pub get_use_filter : ClientInfo → Bool
get_use_filter self = not (bit_and (self.filter) filter_use_event == 0)

-- A byte of the bitmap gets a bit; a place behind the bitmap stays as it is.
unfoldable pub set_bit : List ℕ → ℕ → ℕ → List ℕ
set_bit [] order idx = []
set_bit (b ∷ bs) zero idx = bit_or b (2 ^ idx) ∷ bs
set_bit (b ∷ bs) (suc order) idx = b ∷ set_bit bs order idx

-- The loop over the types.
unfoldable pub set_types : List ℕ → List ℕ → List ℕ
set_types event_filter [] = event_filter
set_types event_filter (event_type ∷ event_types) =
    set_types (set_bit event_filter (event_type / 8) (event_type % 8)) event_types

unfoldable pub set_event_filter : ClientInfo → List ℕ → ClientInfo
set_event_filter self event_types = record self {
  event_filter = set_types (replicate 32 0) event_types;
}

unfoldable pub has_type : List ℕ → ℕ → Bool
has_type event_filter i =
    ltb (i / 8) 32 && not (bit_and (get_or event_filter (i / 8) 0) (2 ^ (i % 8)) == 0)

-- The second loop, from a type on; the first one counts the places that it needs.
unfoldable pub filtered_types : List ℕ → ℕ → ℕ → List ℕ
filtered_types event_filter zero i = []
filtered_types event_filter (suc left) i =
    let rest = filtered_types event_filter left (suc i) in
    if has_type event_filter i then i ∷ rest else rest

-- `SNDRV_SEQ_EVENT_NONE` is 255.
unfoldable pub get_event_filter : ClientInfo → List ℕ
get_event_filter self = filtered_types (self.event_filter) 256 0
