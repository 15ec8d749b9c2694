-- ===== src/Seq/PortInfo.antt =====
-- src/seq/port-info.c: the properties of a port, two of which are bits of the flags.
mod Tests
pub mod Properties
use alsa_gobject.Base.{ℕ, ◌^◌, bit_and, bit_or, Bool, if◌then◌else◌, Option, none, some, List, take}
use alsa_gobject.Base.Bits.{not_mask}
use alsa_gobject.Seq.Query.{SeqAddr}
use alsa_gobject.Seq.SubscribeData.{TstampMode, tick, real, is_real, has_flag}

-- `struct snd_seq_port_info`
pub record PortInfo : Type 0 where
  pub addr : SeqAddr
  pub name : List ℕ
  pub capability : ℕ
  pub port_type : ℕ
  pub midi_channels : ℕ
  pub midi_voices : ℕ
  pub synth_voices : ℕ
  pub read_use : ℕ
  pub write_use : ℕ
  pub flags : ℕ
  pub time_queue : ℕ

-- `SNDRV_SEQ_PORT_FLG_TIMESTAMP` and `SNDRV_SEQ_PORT_FLG_TIME_REAL`
abbrev pub flg_timestamp : ℕ
flg_timestamp = 2 ^ 1

abbrev pub flg_time_real : ℕ
flg_time_real = 2 ^ 2

-- A property of the class with the value that it is set to; `none` is the null pointer.
pub data Setting : Type 0 where
  addr : Option SeqAddr → Setting
  name : List ℕ → Setting
  caps attrs midi_channels midi_voices synth_voices read_users write_users queue_id : ℕ → Setting
  tstamp_overwrite : Bool → Setting
  tstamp_mode : TstampMode → Setting

-- The bit is set or cleared.
abbrev pub put_flag : ℕ → ℕ → Bool → ℕ
put_flag flags m b = if b then bit_or flags m else bit_and flags (not_mask 32 m)

-- The name has 64 bytes, one of which is for the zero byte.
unfoldable pub set_property : PortInfo → Setting → PortInfo
set_property self (addr none) = self
set_property self (addr (some v)) = record self { addr = v }
set_property self (name text) = record self { name = take 63 text }
set_property self (caps v) = record self { capability = v }
set_property self (attrs v) = record self { port_type = v }
set_property self (midi_channels v) = record self { midi_channels = v }
set_property self (midi_voices v) = record self { midi_voices = v }
set_property self (synth_voices v) = record self { synth_voices = v }
set_property self (read_users v) = record self { read_use = v }
set_property self (write_users v) = record self { write_use = v }
set_property self (tstamp_overwrite b) = record self {
  flags = put_flag (self.flags) flg_timestamp b;
}
set_property self (tstamp_mode mode) = record self {
  flags = put_flag (self.flags) flg_time_real (is_real mode);
}
set_property self (queue_id v) = record self { time_queue = v }

-- The values of all properties.
pub record Port : Type 0 where
  pub addr : SeqAddr
  pub name : List ℕ
  pub caps : ℕ
  pub attrs : ℕ
  pub midi_channels : ℕ
  pub midi_voices : ℕ
  pub synth_voices : ℕ
  pub read_users : ℕ
  pub write_users : ℕ
  pub overwrite : Bool
  pub mode : TstampMode
  pub queue : ℕ

unfoldable pub get_properties : PortInfo → Port
get_properties self = record {
  addr = self.addr;
  name = self.name;
  caps = self.capability;
  attrs = self.port_type;
  midi_channels = self.midi_channels;
  midi_voices = self.midi_voices;
  synth_voices = self.synth_voices;
  read_users = self.read_use;
  write_users = self.write_use;
  overwrite = has_flag (self.flags) flg_timestamp;
  mode = if has_flag (self.flags) flg_time_real then real else tick;
  queue = self.time_queue;
}
