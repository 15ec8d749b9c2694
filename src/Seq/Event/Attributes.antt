-- ===== src/Seq/Event/Attributes.antt =====
-- The attributes of an event that share the byte `flags`: each setter writes its own bits only.
use alsa_gobject.Base.{ℕ, ◌%◌, ◌^◌, ◌<◌, bit_and, ◌≡◌, arith}
use alsa_gobject.Base.Bits.{
  assign_bits, assign_bits-lt, bit_and-assign_bits, bit_and-assign_bits_other,
}
use alsa_gobject.Seq.Uapi.{Uapi, IsUapi}
use alsa_gobject.Seq.Event.{
  Event, get_length_mode, get_tstamp_mode, get_time_mode, set_time_mode, get_priority_mode,
  set_priority_mode,
}

-- A byte of flags whose bits of a mask are rewritten is a byte: the cast cuts nothing.
pub assign_byte :
    (a m v : ℕ)
    → a < 2 ^ 8
    → m < 2 ^ 8
    → v < 2 ^ 8
    → assign_bits 8 a m v % 2 ^ 8 ≡ assign_bits 8 a m v
assign_byte a m v ha hm hv = omega (arith, assign_bits-lt 8 a m v ha hm hv)

module _ (u : Uapi) (law : IsUapi u) {Raw : Type 0} (ev : Event Raw) (byte : ev.flags < 2 ^ 8) where
  -- Setting a time mode (a value that lies in its mask) gives that mode back, and leaves the modes
  -- of length, time stamp and priority as they were.
  pub set_time_mode_fields :
      (mode : ℕ)
      → mode < 2 ^ 8
      → bit_and mode u.time_mode_mask ≡ mode
      → let ev' = set_time_mode u ev mode in
        (get_time_mode u ev' ≡ mode)
        × (get_length_mode u ev' ≡ get_length_mode u ev)
        × (get_tstamp_mode u ev' ≡ get_tstamp_mode u ev)
        × (get_priority_mode u ev' ≡ get_priority_mode u ev)
  unfolding set_time_mode get_time_mode get_length_mode get_tstamp_mode get_priority_mode
  set_time_mode_fields mode hv sub =
      rw (assign_byte ev.flags u.time_mode_mask mode byte law.mode_fits hv) (
        bit_and-assign_bits 8 ev.flags u.time_mode_mask mode byte law.mode_fits hv sub,
        other u.event_length_mask law.length_fits law.mode-length,
        other u.time_stamp_mask law.stamp_fits law.mode-stamp,
        other u.priority_mask law.priority_fits law.mode-priority,
      )
    where
      other :
          (n : ℕ)
          → n < 2 ^ 8
          → bit_and u.time_mode_mask n ≡ 0
          → bit_and (assign_bits 8 ev.flags u.time_mode_mask mode) n ≡ bit_and ev.flags n
      other n hn apart =
          bit_and-assign_bits_other 8 ev.flags u.time_mode_mask mode n byte law.mode_fits hv hn sub
            apart

  -- Setting a priority mode (a value that lies in its mask) gives that mode back, and leaves the
  -- modes of length, time stamp and time as they were.
  pub set_priority_mode_fields :
      (mode : ℕ)
      → mode < 2 ^ 8
      → bit_and mode u.priority_mask ≡ mode
      → let ev' = set_priority_mode u ev mode in
        (get_priority_mode u ev' ≡ mode)
        × (get_length_mode u ev' ≡ get_length_mode u ev)
        × (get_tstamp_mode u ev' ≡ get_tstamp_mode u ev)
        × (get_time_mode u ev' ≡ get_time_mode u ev)
  unfolding set_priority_mode get_time_mode get_length_mode get_tstamp_mode get_priority_mode
  set_priority_mode_fields mode hv sub =
      rw (assign_byte ev.flags u.priority_mask mode byte law.priority_fits hv) (
        bit_and-assign_bits 8 ev.flags u.priority_mask mode byte law.priority_fits hv sub,
        other u.event_length_mask law.length_fits law.priority-length,
        other u.time_stamp_mask law.stamp_fits law.priority-stamp,
        other u.time_mode_mask law.mode_fits law.priority-mode,
      )
    where
      other :
          (n : ℕ)
          → n < 2 ^ 8
          → bit_and u.priority_mask n ≡ 0
          → bit_and (assign_bits 8 ev.flags u.priority_mask mode) n ≡ bit_and ev.flags n
      other n hn apart =
          bit_and-assign_bits_other 8 ev.flags u.priority_mask mode n byte law.priority_fits hv hn
            sub apart
