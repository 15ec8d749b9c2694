-- ===== src/Seq/Event/Types.antt =====
-- src/seq/event.c: the table of the data that each type of event may carry, and the validators.
use alsa_gobject.Base.{ℕ, bit_and, bit_or, Bool, if◌then◌else◌, ◌==◌, leb, ◌||◌, Option, none, some}
use alsa_gobject.Seq.Uapi.{Uapi}
use alsa_gobject.Seq.Event.{
  Event, Ret, done, refused, invalid_data_type, invalid_length_mode, get_length_mode,
  validate_event_tstamp_mode, ◌>>◌,
}
use alsa_gobject.Seq.Event.DataFlag

-- The array `seq_event_data_flags`, whose ranges cover the indices 0 to 255 of a byte.
unfoldable pub seq_event_data_flags : ℕ → ℕ
seq_event_data_flags kind =
    if leb kind 4
    then DataFlag.result
    else if leb kind 9
    then DataFlag.note
    else if leb kind 24
    then DataFlag.control
    else if leb kind 29
    then DataFlag.fixed_any
    else if leb kind 39
    then DataFlag.queue
    else if leb kind 49
    then DataFlag.blank
    else if leb kind 59
    then DataFlag.any
    else if leb kind 65
    then DataFlag.addr
    else if leb kind 69
    then DataFlag.connect
    else if leb kind 79
    then DataFlag.fixed_any
    else if leb kind 89
    then DataFlag.fixed_any
    else if leb kind 99
    then bit_or DataFlag.fixed_any DataFlag.user
    else if leb kind 109
    then DataFlag.fixed_any
    else if leb kind 119
    then DataFlag.fixed_any
    else if leb kind 129
    then DataFlag.fixed_any
    else if leb kind 134
    then DataFlag.blob
    else if leb kind 139
    then bit_or DataFlag.variable_any DataFlag.user
    else if leb kind 149
    then DataFlag.variable_any
    else if leb kind 254
    then DataFlag.any
    else DataFlag.absent

-- The kinds of data of fixed length that the `switch` names.
unfoldable pub is_fixed_flag : ℕ → Bool
is_fixed_flag flag =
    flag == DataFlag.result
    || flag == DataFlag.note
    || flag == DataFlag.control
    || flag == DataFlag.queue
    || flag == DataFlag.addr
    || flag == DataFlag.connect
    || flag == DataFlag.byte
    || flag == DataFlag.quadlet
    || flag == DataFlag.tstamp

-- `none` is 0xffffffff, which no mode of length equals.
unfoldable pub expected_length_mode : Uapi → ℕ → Option ℕ
expected_length_mode u flag =
    if is_fixed_flag flag
    then some u.event_length_fixed
    else if flag == DataFlag.blob
    then some u.event_length_variable
    else if flag == DataFlag.pointer
    then some u.event_length_varusr
    else none

unfoldable pub check_length_mode : ℕ → Option ℕ → Ret (Unit {0})
check_length_mode val none = refused (some invalid_length_mode)
check_length_mode val (some expected) =
    if val == expected then done tt else refused (some invalid_length_mode)

unfoldable pub validate_event_type : {Raw : Type 0} → Event Raw → ℕ → Ret (Unit {0})
validate_event_type ev flag =
    if bit_and (seq_event_data_flags ev.kind) flag == 0
    then refused (some invalid_data_type)
    else done tt

module _ (u : Uapi) {Raw : Type 0} where
  unfoldable pub validate_event_type_and_length : Event Raw → ℕ → Ret (Unit {0})
  validate_event_type_and_length ev flag = do
    validate_event_type ev flag
    check_length_mode (get_length_mode u ev) (expected_length_mode u flag)

  -- The two validations of the setters of a time stamp.
  unfoldable pub validate_stamp_data : Event Raw → ℕ → Ret (Unit {0})
  validate_stamp_data ev mode = do
    validate_event_type ev DataFlag.tstamp
    validate_event_tstamp_mode u ev mode
