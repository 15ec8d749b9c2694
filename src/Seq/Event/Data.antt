-- ===== src/Seq/Event/Data.antt =====
-- src/seq/event.c: writing the data of an event. A setter gives back the event as it leaves it, and
-- the heap.
use alsa_gobject.Base.{ℕ, ◌%◌, ◌^◌, if◌then◌else◌, ◌==◌, some, none}
use alsa_gobject.Base.Bits.{assign_bits}
use alsa_gobject.Seq.Uapi.{
  Uapi, Union, Stamp, Ptr, null, inline, heap, user, Member, note, control, raw8, raw32, queue,
  addr, connect, result,
}
use alsa_gobject.Seq.Event.{Event, Ret, done, refused, get_length_mode}
use alsa_gobject.Seq.Event.Types.{validate_event_type, validate_stamp_data}
use alsa_gobject.Seq.Event.Read.{data_flag}
use alsa_gobject.Seq.Event.Heap.{Mem, pure, free, ◌>>=◌, ◌>>◌}

-- The end of a setter: what it returns, and the event.
abbrev pub Written : Type 0 → Type 0
Written Raw = Mem (Ret (Unit {0}) × Event Raw)

-- A setter's early return on a failed validation.
abbrev pub guarded : {Raw : Type 0} → Ret (Unit {0}) → Event Raw → Mem (Event Raw) → Written Raw
guarded (refused e) ev write h = some ((refused e, ev), h)
guarded (done _) ev write h = elim (write h) [
  | none ↦ none
  | some (ev', h') ↦ some ((done tt, ev'), h')
]

module _ (u : Uapi) (U : Union) where
  -- The pointer is freed unless it is the address behind the event itself.
  unfoldable pub free_ext_ptr : Ptr → Mem (Unit {0})
  free_ext_ptr inline h = some (tt, h)
  free_ext_ptr null h = free null h
  free_ext_ptr (heap a) h = free (heap a) h
  free_ext_ptr (user a) h = free (user a) h

  unfoldable pub free_blob_data : Event U.Raw → Mem (Unit {0})
  free_blob_data ev =
      if get_length_mode u ev == u.event_length_variable
      then free_ext_ptr ((U.get_ext ev.content).ptr)
      else pure tt

  unfoldable pub clear_data_fields : Event U.Raw → Mem (Event U.Raw)
  clear_data_fields ev = do free_blob_data ev; pure (record ev { content = U.zeros })

  -- `flags &= ~SNDRV_SEQ_EVENT_LENGTH_MASK; flags |= mode`, on a byte.
  unfoldable pub with_length_mode : ℕ → Event U.Raw → Event U.Raw
  with_length_mode mode ev = record ev {
    flags = assign_bits 8 ev.flags u.event_length_mask mode % 2 ^ 8;
  }

  unfoldable pub ensure_fixed_length_event : Event U.Raw → Mem (Event U.Raw)
  ensure_fixed_length_event ev = do
    ev' ← clear_data_fields ev
    pure (with_length_mode u.event_length_fixed ev')

  -- The common body of the setters of a member: the union is cleared, then the member is copied.
  unfoldable pub set_member : (m : Member) → Event U.Raw → U.Struct m → Written U.Raw
  set_member m ev s =
      guarded (validate_event_type ev (data_flag m)) ev (do
        ev' ← ensure_fixed_length_event ev
        pure (record ev' { content = U.put m s ev'.content }))

  unfoldable pub set_note_data : Event U.Raw → U.Struct note → Written U.Raw
  set_note_data = set_member note

  unfoldable pub set_ctl_data : Event U.Raw → U.Struct control → Written U.Raw
  set_ctl_data = set_member control

  unfoldable pub set_byte_data : Event U.Raw → U.Struct raw8 → Written U.Raw
  set_byte_data = set_member raw8

  unfoldable pub set_quadlet_data : Event U.Raw → U.Struct raw32 → Written U.Raw
  set_quadlet_data = set_member raw32

  unfoldable pub set_queue_data : Event U.Raw → U.Struct queue → Written U.Raw
  set_queue_data = set_member queue

  unfoldable pub set_addr_data : Event U.Raw → U.Struct addr → Written U.Raw
  set_addr_data = set_member addr

  unfoldable pub set_connect_data : Event U.Raw → U.Struct connect → Written U.Raw
  set_connect_data = set_member connect

  unfoldable pub set_result_data : Event U.Raw → U.Struct result → Written U.Raw
  set_result_data = set_member result

  unfoldable pub set_tick_time_data : Event U.Raw → ℕ → Written U.Raw
  set_tick_time_data ev tick_time = guarded (validate_stamp_data u ev u.time_stamp_tick) ev (do
    ev' ← ensure_fixed_length_event ev
    pure (record ev' {
      content =
          U.put_time (record { first = tick_time; second = (U.get_time ev'.content).second })
            ev'.content;
    }))

  unfoldable pub set_real_time_data : Event U.Raw → Stamp → Written U.Raw
  set_real_time_data ev real_time = guarded (validate_stamp_data u ev u.time_stamp_real) ev (do
    ev' ← ensure_fixed_length_event ev
    pure (record ev' { content = U.put_time real_time ev'.content }))
