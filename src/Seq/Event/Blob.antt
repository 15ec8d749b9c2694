-- ===== src/Seq/Event/Blob.antt =====
-- src/seq/event.c: the data of variable length, which the event owns as a block of the heap, and the
-- data of the application, to which it only points.
use alsa_gobject.Base.{ℕ, ◌%◌, ◌^◌, if◌then◌else◌, ◌==◌, none}
use alsa_gobject.Seq.Uapi.{Uapi, Union, Ptr}
use alsa_gobject.Seq.Event.{Event, refused}
use alsa_gobject.Seq.Event.DataFlag
use alsa_gobject.Seq.Event.Types.{validate_event_type}
use alsa_gobject.Seq.Event.Heap.{Mem, pure, Buffer, load, alloc, ◌>>=◌}
use alsa_gobject.Seq.Event.Data.{Written, guarded, clear_data_fields, with_length_mode}

module _ (u : Uapi) (U : Union) where
  -- The old blob is freed before the new one is copied. `len` has 32 bits.
  unfoldable pub ensure_variable_length_event : Event U.Raw → Buffer → ℕ → Mem (Event U.Raw)
  ensure_variable_length_event ev buf length = do
    ev' ← clear_data_fields u U ev
    bs ← load buf length
    ptr ← alloc length bs
    pure (
        with_length_mode u U u.event_length_variable (record ev' {
          content = U.put_ext (record { len = length % 2 ^ 32; ptr = ptr }) ev'.content;
        }))

  unfoldable pub ensure_pointer_length_event : Event U.Raw → Mem (Event U.Raw)
  ensure_pointer_length_event ev = do
    ev' ← clear_data_fields u U ev
    pure (with_length_mode u U u.event_length_varusr ev')

  unfoldable pub set_blob_data : Event U.Raw → Buffer → ℕ → Written U.Raw
  set_blob_data ev buf length =
      guarded (validate_event_type ev DataFlag.blob) ev (ensure_variable_length_event ev buf length)

  -- The check of `length > 0` is `g_return_val_if_fail`, which sets no error.
  unfoldable pub set_pointer_data : Event U.Raw → Ptr → ℕ → Written U.Raw
  set_pointer_data ev ptr length =
      if length == 0
      then pure (refused none, ev)
      else guarded (validate_event_type ev DataFlag.pointer) ev (do
        ev' ← ensure_pointer_length_event ev
        pure (record ev' {
          content = U.put_ext (record { len = length % 2 ^ 32; ptr = ptr }) ev'.content;
        }))
