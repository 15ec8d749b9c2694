-- ===== src/Seq/Event.antt =====
-- src/seq/event.c: the boxed structure of an event, its scalar attributes and its time stamp.
-- `Raw` is the storage of the union `data`. The checks of `g_return_if_fail` for NULL arguments
-- have no counterpart, since no argument of the model is NULL.
pub mod DataFlag
pub mod Types
pub mod Read
pub mod Heap
pub mod Data
pub mod Blob
pub mod Attributes
pub mod Ownership
pub mod Storage
pub mod Blobs
pub mod Flatten
pub mod Delivering
pub mod Stamps
pub mod Building
pub mod Built
use alsa_gobject.Base.{ℕ, ◌%◌, ◌^◌, bit_and, if◌then◌else◌, ◌==◌, Option, none}
use alsa_gobject.Base.Bits.{assign_bits}
use alsa_gobject.Seq.Uapi.{Uapi, Stamp, Union}

-- `struct snd_seq_addr`.
pub record Addr : Type 0 where
  pub client : ℕ
  pub port : ℕ

-- `struct snd_seq_event`; `tag` is the byte that holds the signed number.
pub record Event (Raw : Type 0) : Type 0 where
  pub kind : ℕ
  pub flags : ℕ
  pub tag : ℕ
  pub queue : ℕ
  pub time : Stamp
  pub source : Addr
  pub dest : Addr
  pub content : Raw

-- The codes of `ALSASeqEventError`.
pub data EventError : Type 0 where
  failed invalid_data_type invalid_length_mode invalid_tstamp_mode : EventError

-- The end of a function that returns `gboolean` and may fill a `GError`: TRUE with what it gives
-- out, or FALSE with the error that it sets, if it sets one.
pub data Ret (A : Type 0) : Type 0 where
  done : A → Ret A
  refused : Option EventError → Ret A

infixl 5 ◌>>=◌ ◌>>◌
abbrev pub ◌>>=◌ : {A B : Type 0} → Ret A → (A → Ret B) → Ret B
done a >>= f = f a
refused e >>= f = refused e

abbrev pub ◌>>◌ : {B : Type 0} → Ret (Unit {0}) → Ret B → Ret B
m >> k = m >>= λ _. k

unfoldable pub new : (U : Union) → ℕ → Event (U.Raw)
new U event_type = record {
  kind = event_type % 2 ^ 8;
  flags = 0;
  tag = 0;
  queue = 0;
  time = record { first = 0; second = 0 };
  source = record { client = 0; port = 0 };
  dest = record { client = 0; port = 0 };
  content = U.zeros;
}

module _ {Raw : Type 0} where
  unfoldable pub get_event_type : Event Raw → ℕ
  get_event_type ev = ev.kind

  unfoldable pub get_tag : Event Raw → ℕ
  get_tag ev = ev.tag

  unfoldable pub set_tag : Event Raw → ℕ → Event Raw
  set_tag ev tag = record ev { tag = tag }

  unfoldable pub get_queue_id : Event Raw → ℕ
  get_queue_id ev = ev.queue

  unfoldable pub set_queue_id : Event Raw → ℕ → Event Raw
  set_queue_id ev queue_id = record ev { queue = queue_id }

  unfoldable pub get_source : Event Raw → Addr
  get_source ev = ev.source

  unfoldable pub set_source : Event Raw → Addr → Event Raw
  set_source ev addr = record ev { source = addr }

  unfoldable pub get_destination : Event Raw → Addr
  get_destination ev = ev.dest

  unfoldable pub set_destination : Event Raw → Addr → Event Raw
  set_destination ev addr = record ev { dest = addr }

module _ (u : Uapi) {Raw : Type 0} where
  unfoldable pub get_length_mode : Event Raw → ℕ
  get_length_mode ev = bit_and ev.flags u.event_length_mask

  unfoldable pub get_tstamp_mode : Event Raw → ℕ
  get_tstamp_mode ev = bit_and ev.flags u.time_stamp_mask

  unfoldable pub get_time_mode : Event Raw → ℕ
  get_time_mode ev = bit_and ev.flags u.time_mode_mask

  -- `flags` is a byte, so the enumeration is cut to eight bits.
  unfoldable pub set_time_mode : Event Raw → ℕ → Event Raw
  set_time_mode ev time_mode = record ev {
    flags = assign_bits 8 ev.flags u.time_mode_mask time_mode % 2 ^ 8;
  }

  unfoldable pub get_priority_mode : Event Raw → ℕ
  get_priority_mode ev = bit_and ev.flags u.priority_mask

  unfoldable pub set_priority_mode : Event Raw → ℕ → Event Raw
  set_priority_mode ev priority_mode = record ev {
    flags = assign_bits 8 ev.flags u.priority_mask priority_mode % 2 ^ 8;
  }

  -- FALSE comes without an error.
  unfoldable pub validate_event_tstamp_mode : Event Raw → ℕ → Ret (Unit {0})
  validate_event_tstamp_mode ev mode =
      if bit_and ev.flags u.time_stamp_mask == mode then done tt else refused none

  unfoldable pub get_tick_time : Event Raw → Ret ℕ
  get_tick_time ev = do validate_event_tstamp_mode ev u.time_stamp_tick; done (ev.time.first)

  unfoldable pub set_tick_time : Event Raw → ℕ → Ret (Event Raw)
  set_tick_time ev tick_time = do
    validate_event_tstamp_mode ev u.time_stamp_tick
    done (record ev { time = record { first = tick_time; second = ev.time.second } })

  unfoldable pub get_real_time : Event Raw → Ret Stamp
  get_real_time ev = do validate_event_tstamp_mode ev u.time_stamp_real; done (ev.time)

  unfoldable pub set_real_time : Event Raw → Stamp → Ret (Event Raw)
  set_real_time ev real_time = do
    validate_event_tstamp_mode ev u.time_stamp_real
    done (record ev { time = real_time })
