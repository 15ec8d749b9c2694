-- ===== src/Seq/SubscribeData.antt =====
-- src/seq/subscribe-data.c: the properties of a subscription, some of which are bits of the flags.
mod Tests
pub mod Properties
use alsa_gobject.Base.{ℕ, ◌^◌, bit_and, bit_or, Bool, true, false, not, if◌then◌else◌, ◌==◌}
use alsa_gobject.Base.Bits.{not_mask}
use alsa_gobject.Seq.Query.{SeqAddr, PortSubscribe}

-- `SNDRV_SEQ_PORT_SUBS_EXCLUSIVE`, `_TIMESTAMP` and `_TIME_REAL`
abbrev pub subs_exclusive : ℕ
subs_exclusive = 1

abbrev pub subs_timestamp : ℕ
subs_timestamp = 2

abbrev pub subs_time_real : ℕ
subs_time_real = 4

-- `ALSASeqEventTstampMode`
pub data TstampMode : Type 0 where
  tick real : TstampMode

-- A property of the class with the value that it is set to. An address of NULL, which the code reads
-- without a test, is left out.
pub data Setting : Type 0 where
  sender destination : SeqAddr → Setting
  is_exclusive has_tstamp : Bool → Setting
  tstamp_mode : TstampMode → Setting
  queue_id : ℕ → Setting

abbrev pub is_real : TstampMode → Bool
is_real tick = false
is_real real = true

-- The bit is cleared, and set again where the value says so.
abbrev pub set_flag : ℕ → ℕ → Bool → ℕ
set_flag flags m b =
    let cleared = bit_and flags (not_mask 32 m) in if b then bit_or cleared m else cleared

abbrev pub has_flag : ℕ → ℕ → Bool
has_flag flags m = not (bit_and flags m == 0)

unfoldable pub set_property : PortSubscribe → Setting → PortSubscribe
set_property self (sender addr) = record self { sender = addr }
set_property self (destination addr) = record self { dest = addr }
set_property self (is_exclusive b) = record self { flags = set_flag (self.flags) subs_exclusive b }
set_property self (has_tstamp b) = record self { flags = set_flag (self.flags) subs_timestamp b }
set_property self (tstamp_mode mode) = record self {
  flags = set_flag (self.flags) subs_time_real (is_real mode);
}
set_property self (queue_id v) = record self { queue = v }

-- The values of all properties.
pub record Subscription : Type 0 where
  pub sender : SeqAddr
  pub destination : SeqAddr
  pub exclusive : Bool
  pub tstamp : Bool
  pub mode : TstampMode
  pub queue : ℕ

unfoldable pub get_properties : PortSubscribe → Subscription
get_properties self = record {
  sender = self.sender;
  destination = self.dest;
  exclusive = has_flag (self.flags) subs_exclusive;
  tstamp = has_flag (self.flags) subs_timestamp;
  mode = if has_flag (self.flags) subs_time_real then real else tick;
  queue = self.queue;
}
