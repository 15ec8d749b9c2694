-- ===== src/Seq/PortInfo/Properties.antt =====
-- The structure of src/seq/port-info.c stands for properties that do not touch one another.
use alsa_gobject.Base.{
  ℕ, ◌^◌, ◌<◌, bit_or, Bool, true, false, not, if◌then◌else◌, ◌==◌, none, some, take, ◌≡◌, refl,
  sym, ap, ◌∙◌, arith,
}
use alsa_gobject.Base.Bits.{bit, bit_and-bit, bit-bit_or}
use alsa_gobject.Seq.SubscribeData.{TstampMode, tick, real, is_real, has_flag}
use alsa_gobject.Seq.SubscribeData.Properties.{mode_of, has_flag-set_flag, has_flag-set_flag_other}
use alsa_gobject.Seq.PortInfo.{
  PortInfo, Setting, addr, name, caps, attrs, midi_channels, midi_voices, synth_voices, read_users,
  write_users, tstamp_overwrite, tstamp_mode, queue_id, put_flag, flg_timestamp, flg_time_real,
  set_property, Port, get_properties,
}

-- What is set in the abstract: one property changes, the others stay. A name is cut off at 63 bytes, and
-- no address leaves the address.
abbrev pub written : Port → Setting → Port
written s (addr none) = s
written s (addr (some v)) = record s { addr = v }
written s (name text) = record s { name = take 63 text }
written s (caps v) = record s { caps = v }
written s (attrs v) = record s { attrs = v }
written s (midi_channels v) = record s { midi_channels = v }
written s (midi_voices v) = record s { midi_voices = v }
written s (synth_voices v) = record s { synth_voices = v }
written s (read_users v) = record s { read_users = v }
written s (write_users v) = record s { write_users = v }
written s (tstamp_overwrite b) = record s { overwrite = b }
written s (tstamp_mode m) = record s { mode = m }
written s (queue_id v) = record s { queue = v }

has_flag-bit :
    (i j f : ℕ) → has_flag (bit_or f (2 ^ i)) (2 ^ j) ≡ not ((if i == j then 1 else bit j f) == 0)
has_flag-bit i j f =
    ap (λ t. not t) (bit_and-bit j (bit_or f (2 ^ i)))
    ∙ ap (λ (t : ℕ). not (t == 0)) (bit-bit_or i j f)

put_overwrite :
    (f : ℕ) (b : Bool) → f < 2 ^ 32 → has_flag (put_flag f flg_timestamp b) flg_timestamp ≡ b
put_overwrite f true word = has_flag-bit 1 1 f
put_overwrite f false word =
    has_flag-set_flag f flg_timestamp false word (omega arith) refl refl refl

put_overwrite_other :
    (f : ℕ) (b : Bool)
    → f < 2 ^ 32
    → has_flag (put_flag f flg_timestamp b) flg_time_real ≡ has_flag f flg_time_real
put_overwrite_other f true word = has_flag-bit 1 2 f ∙ sym (ap (λ t. not t) (bit_and-bit 2 f))
put_overwrite_other f false word =
    has_flag-set_flag_other f flg_timestamp false word (omega arith) refl refl flg_time_real
      (omega arith) refl

put_mode : (f : ℕ) (b : Bool) → f < 2 ^ 32 → has_flag (put_flag f flg_time_real b) flg_time_real ≡ b
put_mode f true word = has_flag-bit 2 2 f
put_mode f false word = has_flag-set_flag f flg_time_real false word (omega arith) refl refl refl

put_mode_other :
    (f : ℕ) (b : Bool)
    → f < 2 ^ 32
    → has_flag (put_flag f flg_time_real b) flg_timestamp ≡ has_flag f flg_timestamp
put_mode_other f true word = has_flag-bit 2 1 f ∙ sym (ap (λ t. not t) (bit_and-bit 1 f))
put_mode_other f false word =
    has_flag-set_flag_other f flg_time_real false word (omega arith) refl refl flg_timestamp
      (omega arith) refl

-- The properties of a structure with other values of the two in the flags.
abbrev pub with_stamps : PortInfo → Bool → TstampMode → Port
with_stamps self overwrite mode = record (get_properties self) {
  overwrite = overwrite;
  mode = mode;
}

-- The structure implements twelve properties that do not touch one another: behind a setting, the property
-- that is set has the new value, a name cut off at 63 bytes, and the others have the values that they had.
pub get_port-set_property :
    (self : PortInfo) (s : Setting)
    → self.flags < 2 ^ 32
    → get_properties (set_property self s) ≡ written (get_properties self) s
unfolding get_properties set_property
get_port-set_property self (addr none) word = refl
get_port-set_property self (addr (some v)) word = refl
get_port-set_property self (name text) word = refl
get_port-set_property self (caps v) word = refl
get_port-set_property self (attrs v) word = refl
get_port-set_property self (midi_channels v) word = refl
get_port-set_property self (midi_voices v) word = refl
get_port-set_property self (synth_voices v) word = refl
get_port-set_property self (read_users v) word = refl
get_port-set_property self (write_users v) word = refl
get_port-set_property self (queue_id v) word = refl
get_port-set_property self (tstamp_overwrite b) word =
    ap
      (λ t.
        with_stamps self t
          (if has_flag (put_flag self.flags flg_timestamp b) flg_time_real then real else tick))
      (put_overwrite self.flags b word)
    ∙ ap (λ t. with_stamps self b (if t then real else tick))
        (put_overwrite_other self.flags b word)
get_port-set_property self (tstamp_mode m) word =
    ap
      (λ t. with_stamps self t (
        if has_flag (put_flag self.flags flg_time_real (is_real m)) flg_time_real
        then real
        else tick))
      (put_mode_other self.flags (is_real m) word)
    ∙ ap (λ t. with_stamps self (has_flag self.flags flg_timestamp) (if t then real else tick))
        (put_mode self.flags (is_real m) word)
    ∙ ap (λ t. with_stamps self (has_flag self.flags flg_timestamp) t) (mode_of m)
