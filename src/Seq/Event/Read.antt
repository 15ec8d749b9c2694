-- ===== src/Seq/Event/Read.antt =====
-- src/seq/event.c: reading the data of an event, once its type and the mode of its length are
-- validated.
use alsa_gobject.Base.{ℕ}
use alsa_gobject.Seq.Uapi.{
  Uapi, Union, Stamp, Ext, Member, note, control, raw8, raw32, queue, addr, connect, result,
}
use alsa_gobject.Seq.Event.{Event, Ret, done, validate_event_tstamp_mode, ◌>>◌}
use alsa_gobject.Seq.Event.DataFlag
use alsa_gobject.Seq.Event.Types.{validate_event_type, validate_event_type_and_length}

-- The kind of data that each member holds.
abbrev pub data_flag : Member → ℕ
data_flag note = DataFlag.note
data_flag control = DataFlag.control
data_flag raw8 = DataFlag.byte
data_flag raw32 = DataFlag.quadlet
data_flag queue = DataFlag.queue
data_flag addr = DataFlag.addr
data_flag connect = DataFlag.connect
data_flag result = DataFlag.result

module _ (u : Uapi) (U : Union) where
  -- The common body of the getters.
  unfoldable pub get_member : (m : Member) → Event U.Raw → Ret (U.Struct m)
  get_member m ev = do validate_event_type_and_length u ev (data_flag m); done (U.get m ev.content)

  unfoldable pub get_note_data : Event U.Raw → Ret (U.Struct note)
  get_note_data = get_member note

  unfoldable pub get_ctl_data : Event U.Raw → Ret (U.Struct control)
  get_ctl_data = get_member control

  -- The type is validated once more behind the assignment.
  unfoldable pub get_byte_data : Event U.Raw → Ret (U.Struct raw8)
  get_byte_data ev = do
    validate_event_type_and_length u ev DataFlag.byte
    validate_event_type ev DataFlag.byte
    done (U.get raw8 ev.content)

  -- The type is validated once more behind the assignment.
  unfoldable pub get_quadlet_data : Event U.Raw → Ret (U.Struct raw32)
  get_quadlet_data ev = do
    validate_event_type_and_length u ev DataFlag.quadlet
    validate_event_type ev DataFlag.quadlet
    done (U.get raw32 ev.content)

  unfoldable pub get_queue_data : Event U.Raw → Ret (U.Struct queue)
  get_queue_data = get_member queue

  unfoldable pub get_addr_data : Event U.Raw → Ret (U.Struct addr)
  get_addr_data = get_member addr

  unfoldable pub get_connect_data : Event U.Raw → Ret (U.Struct connect)
  get_connect_data = get_member connect

  unfoldable pub get_result_data : Event U.Raw → Ret (U.Struct result)
  get_result_data = get_member result

  unfoldable pub get_tick_time_data : Event U.Raw → Ret ℕ
  get_tick_time_data ev = do
    validate_event_type_and_length u ev DataFlag.tstamp
    validate_event_tstamp_mode u ev u.time_stamp_tick
    done ((U.get_time ev.content).first)

  unfoldable pub get_real_time_data : Event U.Raw → Ret Stamp
  get_real_time_data ev = do
    validate_event_type_and_length u ev DataFlag.tstamp
    validate_event_tstamp_mode u ev u.time_stamp_real
    done (U.get_time ev.content)

  unfoldable pub get_blob_data : Event U.Raw → Ret Ext
  get_blob_data ev = do
    validate_event_type_and_length u ev DataFlag.blob
    done (U.get_ext ev.content)

  unfoldable pub get_pointer_data : Event U.Raw → Ret Ext
  get_pointer_data ev = do
    validate_event_type_and_length u ev DataFlag.pointer
    done (U.get_ext ev.content)
