-- ===== src/Seq/RemoveFilter.antt =====
-- src/seq/remove-filter.c: the filter for the removal of scheduled events, whose time is a union of a
-- tick time and a real time. The flags decide which of the two the functions for the time take.
pub mod Times
use alsa_gobject.Base.{ℕ, ◌^◌, bit_and, Bool, not, if◌then◌else◌, ◌==◌, Option, none, some}
use alsa_gobject.Seq.Query.{SeqAddr}
use alsa_gobject.Seq.Uapi.{Stamp}

-- `struct snd_seq_remove_events`; the tick time is the first word of the union, where a real time has
-- its seconds. The tag is a signed byte, here as its bits.
pub record RemoveFilter : Type 0 where
  pub remove_mode : ℕ
  pub time : Stamp
  pub queue : ℕ
  pub dest : SeqAddr
  pub channel : ℕ
  pub event_type : ℕ
  pub tag : ℕ

-- `SNDRV_SEQ_REMOVE_TIME_TICK`
abbrev pub remove_time_tick : ℕ
remove_time_tick = 2 ^ 6

-- A property of the class with the value that it is set to; `none` is the null pointer.
pub data Setting : Type 0 where
  flags queue_id channel event_type tag : ℕ → Setting
  destination : Option SeqAddr → Setting

-- The address is read from the pointer without a test: `none` where the pointer is null.
unfoldable pub set_property : RemoveFilter → Setting → Option RemoveFilter
set_property self (flags v) = some (record self { remove_mode = v })
set_property self (queue_id v) = some (record self { queue = v })
set_property self (destination none) = none
set_property self (destination (some v)) = some (record self { dest = v })
set_property self (channel v) = some (record self { channel = v })
set_property self (event_type v) = some (record self { event_type = v })
set_property self (tag v) = some (record self { tag = v })

-- The values of all properties.
pub record Filter : Type 0 where
  pub flags : ℕ
  pub queue_id : ℕ
  pub destination : SeqAddr
  pub channel : ℕ
  pub event_type : ℕ
  pub tag : ℕ

unfoldable pub get_properties : RemoveFilter → Filter
get_properties self = record {
  flags = self.remove_mode;
  queue_id = self.queue;
  destination = self.dest;
  channel = self.channel;
  event_type = self.event_type;
  tag = self.tag;
}

-- The guard of the functions for the time.
unfoldable pub takes_tick : RemoveFilter → Bool
takes_tick self = not (bit_and (self.remove_mode) remove_time_tick == 0)

-- A getter that returns early gives `none`, a setter leaves the filter as it is.
unfoldable pub get_tick_time : RemoveFilter → Option ℕ
get_tick_time self = if takes_tick self then some (self.time.first) else none

unfoldable pub set_tick_time : RemoveFilter → ℕ → RemoveFilter
set_tick_time self tick =
    if takes_tick self then record self { time = record (self.time) { first = tick } } else self

unfoldable pub get_real_time : RemoveFilter → Option Stamp
get_real_time self = if takes_tick self then none else some (self.time)

unfoldable pub set_real_time : RemoveFilter → Stamp → RemoveFilter
set_real_time self real = if takes_tick self then self else record self { time = real }
