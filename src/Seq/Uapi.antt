-- ===== src/Seq/Uapi.antt =====
-- What src/seq uses of the kernel's header `sound/asequencer.h`, which is not in the repository:
-- the values of the macros and the storage of the unions, as parameters of the model.
use alsa_gobject.Base.{ℕ, ◌<◌, ◌^◌, bit_and, ◌≡◌, ◌≢◌}

-- The values of the macros `SNDRV_SEQ_*`, and `sizeof(struct snd_seq_event)`.
pub record Uapi : Type 0 where
  pub time_stamp_mask : ℕ
  pub time_stamp_tick : ℕ
  pub time_stamp_real : ℕ
  pub time_mode_mask : ℕ
  pub event_length_mask : ℕ
  pub event_length_fixed : ℕ
  pub event_length_variable : ℕ
  pub event_length_varusr : ℕ
  pub priority_mask : ℕ
  pub queue_direct : ℕ
  pub event_note : ℕ
  pub event_size : ℕ

-- Two fields of `flags` share no bit.
abbrev pub Apart : ℕ → ℕ → Type 0
Apart m n = bit_and m n ≡ 0

-- What the header documents: `flags` is one byte, cut into four fields, each value of a field lies
-- in its mask, and the values of a field differ.
pub record IsUapi (u : Uapi) : Type 0 where
  pub stamp_fits : u.time_stamp_mask < 2 ^ 8
  pub mode_fits : u.time_mode_mask < 2 ^ 8
  pub length_fits : u.event_length_mask < 2 ^ 8
  pub priority_fits : u.priority_mask < 2 ^ 8
  pub fixed_fits : u.event_length_fixed < 2 ^ 8
  pub variable_fits : u.event_length_variable < 2 ^ 8
  pub varusr_fits : u.event_length_varusr < 2 ^ 8
  pub fixed_masked : bit_and u.event_length_fixed u.event_length_mask ≡ u.event_length_fixed
  pub variable_masked :
      bit_and u.event_length_variable u.event_length_mask ≡ u.event_length_variable
  pub varusr_masked : bit_and u.event_length_varusr u.event_length_mask ≡ u.event_length_varusr
  pub fixed-ne-variable : u.event_length_fixed ≢ u.event_length_variable
  pub fixed-ne-varusr : u.event_length_fixed ≢ u.event_length_varusr
  pub variable-ne-varusr : u.event_length_variable ≢ u.event_length_varusr
  pub tick-ne-real : u.time_stamp_tick ≢ u.time_stamp_real
  pub length-stamp : Apart u.event_length_mask u.time_stamp_mask
  pub length-mode : Apart u.event_length_mask u.time_mode_mask
  pub length-priority : Apart u.event_length_mask u.priority_mask
  pub mode-stamp : Apart u.time_mode_mask u.time_stamp_mask
  pub mode-length : Apart u.time_mode_mask u.event_length_mask
  pub mode-priority : Apart u.time_mode_mask u.priority_mask
  pub priority-stamp : Apart u.priority_mask u.time_stamp_mask
  pub priority-mode : Apart u.priority_mask u.time_mode_mask
  pub priority-length : Apart u.priority_mask u.event_length_mask
  pub size_pos : 0 < u.event_size

-- `union snd_seq_timestamp` as its two words: `tick` and `time.tv_sec` are both the first.
pub record Stamp : Type 0 where
  pub first : ℕ
  pub second : ℕ

-- Where a pointer of an event points: to the bytes behind the event in its own block, into the
-- heap, or to memory of the application.
pub data Ptr : Type 0 where
  null inline : Ptr
  heap : ℕ → Ptr
  user : ℕ → Ptr

-- `struct snd_seq_ev_ext`.
pub record Ext : Type 0 where
  pub len : ℕ
  pub ptr : Ptr

-- The members of the union `data` of an event that the library copies as a whole.
pub data Member : Type 0 where
  note control raw8 raw32 queue addr connect result : Member

-- The union `data`: writing a member and reading the same member gives what was written. `zeros`
-- is the union after `memset(&ev->data, 0, sizeof(ev->data))`.
pub record Union : Type 1 where
  pub Raw : Type 0
  pub zeros : Raw
  pub Struct : Member → Type 0
  pub put : (m : Member) → Struct m → Raw → Raw
  pub get : (m : Member) → Raw → Struct m
  pub get-put : (m : Member) (s : Struct m) (r : Raw) → get m (put m s r) ≡ s
  pub put_time : Stamp → Raw → Raw
  pub get_time : Raw → Stamp
  pub get_time-put_time : (s : Stamp) (r : Raw) → get_time (put_time s r) ≡ s
  pub put_ext : Ext → Raw → Raw
  pub get_ext : Raw → Ext
  pub get_ext-put_ext : (e : Ext) (r : Raw) → get_ext (put_ext e r) ≡ e
