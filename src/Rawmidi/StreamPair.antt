-- ===== src/Rawmidi/StreamPair.antt =====
-- src/rawmidi/stream-pair.c: the object for the streams of a rawmidi device. What the driver, libudev
-- and `open` answer is a parameter. The checks of `g_return_val_if_fail` on values end a call with
-- FALSE and no error; those on classes and on NULL have no counterpart.
pub mod Descriptors
pub mod Sources
use alsa_gobject.Base.{
  ℕ, ◌-◌, ◌/◌, ◌%◌, ◌^◌, Bool, true, false, not, ◌&&◌, ◌||◌, if◌then◌else◌, ◌==◌, Option, none,
  some, List, [], ◌∷◌, ◌++◌, bit_and, bit_or, take, length,
}
use alsa_gobject.Base.Bits.{assign_bits}
use alsa_gobject.Platform.{
  Platform, Reply, answer, errno, GError, local, Ended, success, failure, generate_file_error,
  file_or_failed_twice,
}
use alsa_gobject.Utils.Ioctl.{
  Slot, held, negative, Call, opens, closes, Control, request_ctl_ioctl_opened,
}

-- `ALSARawmidiStreamPairError`
pub data StreamPairError : Type 0 where
  failed disconnected unreadable : StreamPairError

-- `ALSARawmidiStreamPairPrivate`; `none` is a negative descriptor.
pub record StreamPair : Type 0 where
  pub fd : Option ℕ
  pub devnode : Option (List ℕ)
  pub proto_ver_triplet : ℕ × ℕ × ℕ

-- The flags of the kernel's header for the directions of a stream, and those of `open` for the access.
abbrev pub info_flag_output : ℕ
info_flag_output = 1

abbrev pub info_flag_input : ℕ
info_flag_input = 2

abbrev pub o_rdonly : ℕ
o_rdonly = 0

abbrev pub o_wronly : ℕ
o_wronly = 1

abbrev pub o_rdwr : ℕ
o_rdwr = 2

-- `!(flags & flag)` is the negation.
abbrev pub has_bit : ℕ → ℕ → Bool
has_bit flags flag = not (bit_and flags flag == 0)

pub data Signal : Type 0 where
  handle_messages handle_disconnection : Signal

-- `G_SOURCE_REMOVE` and `G_SOURCE_CONTINUE`
pub data SourceEnd : Type 0 where
  remove continue : SourceEnd

pub record Condition : Type 0 where
  pub io_in : Bool
  pub io_err : Bool

unfoldable pub new : StreamPair
new = record { fd = none; devnode = none; proto_ver_triplet = (0, 0, 0) }

-- The flags that `open` is called with; `none` where the access modes are none of the library's.
unfoldable pub flags_for : ℕ → ℕ → Option ℕ
flags_for access_modes open_flag =
    if bit_and access_modes (2 ^ 32 - 1 - bit_or info_flag_output info_flag_input) == 0
    then (if has_bit access_modes info_flag_output && has_bit access_modes info_flag_input
        then some (assign_bits 32 open_flag 3 o_rdwr)
        else (if has_bit access_modes info_flag_output
            then some (assign_bits 32 open_flag 3 o_wronly)
            else (if has_bit access_modes info_flag_input
                then some (assign_bits 32 open_flag 3 o_rdonly)
                else none)))
    else none

unfoldable pub get_protocol_version : StreamPair → Ended StreamPairError (ℕ × ℕ × ℕ)
get_protocol_version self = elim (self.fd) [
  | none ↦ failure none
  | some fd ↦ success (self.proto_ver_triplet)
]

unfoldable pub check_src : Condition → Bool
check_src c = c.io_in || c.io_err

unfoldable pub dispatch_src : StreamPair → Condition → List Signal × SourceEnd
dispatch_src self c = elim (self.fd) [
  | none ↦ ([], remove)
  | some fd ↦
      if c.io_err
      then (handle_disconnection ∷ [], remove)
      else (if c.io_in then (handle_messages ∷ [], continue) else ([], continue))
]

-- The calls on descriptors when the object is disposed of, and whether the text of the path is freed.
unfoldable pub finalize : StreamPair → List Call × Bool
finalize self = elim (self.fd) [ none ↦ ([], false) | some fd ↦ (closes (held fd) ∷ [], true) ]

module _ (p : Platform) where
  unfoldable pub device_error : ℕ → StreamPairError
  device_error e = if e == p.enodev then disconnected else failed

  unfoldable pub file_error : ℕ → GError StreamPairError
  file_error e = if e == p.enodev then local disconnected else file_or_failed_twice p failed e

  -- The choice of a subdevice by the control device; the descriptor of that is given out.
  unfoldable pub rawmidi_select_subdevice :
      Control (Unit {0}) → ℕ → List Call × Slot × Ended StreamPairError (Unit {0})
  rawmidi_select_subdevice control card_id =
      let (calls, ctl_fd, err) = request_ctl_ioctl_opened control card_id in
      elim err [
        | errno e ↦ (calls, ctl_fd, failure (some (generate_file_error p e)))
        | answer done ↦ (calls, ctl_fd, success tt)
      ]

  -- `devnode` is the path of the device, `open_node` and `pversion` what the system calls give.
  unfoldable pub open_stream_pair :
      Control (Unit {0})
      → Reply (List ℕ)
      → (List ℕ → ℕ → Reply ℕ)
      → Reply ℕ
      → StreamPair
      → ℕ
      → ℕ
      → ℕ
      → List Call × StreamPair × Ended StreamPairError (Unit {0})
  open_stream_pair control devnode open_node pversion self card_id access_modes open_flag =
      elim (flags_for access_modes open_flag) [
        | none ↦ ([], self, failure none)
        | some flags ↦ elim devnode [
          | errno e ↦ ([], self, failure (some (generate_file_error p e)))
          | answer node ↦
              let (calls, ctl_fd, selected) = rawmidi_select_subdevice control card_id in
              elim selected [
                | failure error ↦ (calls, self, failure error)
                | success done ↦ elim (open_node node flags) [
                  | errno e ↦ (
                    calls ++ (closes ctl_fd ∷ []),
                    record self { fd = none },
                    failure (some (file_error e)),
                  )
                  | answer fd ↦ elim pversion [
                    | errno e ↦ (
                      calls ++ (opens fd ∷ (closes ctl_fd ∷ (closes (held fd) ∷ []))),
                      record self { fd = none; devnode = some node },
                      failure (some (local (device_error e))),
                    )
                    | answer proto_ver ↦ (
                      calls ++ (opens fd ∷ (closes ctl_fd ∷ [])),
                      record self {
                        fd = some fd;
                        devnode = some node;
                        proto_ver_triplet = (
                          proto_ver / 2 ^ 16 % 2 ^ 16,
                          proto_ver / 2 ^ 8 % 2 ^ 8,
                          proto_ver % 2 ^ 8,
                        );
                      },
                      success tt,
                    )
                  ]
                ]
              ]
        ]
      ]

  abbrev pub conclude : {A : Type 0} → Reply A → Ended StreamPairError A
  conclude (answer a) = success a
  conclude (errno e) = failure (some (local (device_error e)))

  -- What the calls read or write is a structure of the kernel's, for a direction.
  module _ {A : Type 0} where
    unfoldable pub get_substream_info : (ℕ → Reply A) → ℕ → Ended StreamPairError A
    get_substream_info info direction = conclude (info direction)

    unfoldable pub set_substream_params :
        (ℕ → A → Reply (Unit {0})) → ℕ → A → Ended StreamPairError (Unit {0})
    set_substream_params params direction substream_params =
        conclude (params direction substream_params)

    unfoldable pub get_substream_status : (ℕ → A → Reply A) → ℕ → A → Ended StreamPairError A
    get_substream_status status direction substream_status =
        conclude (status direction substream_status)

  unfoldable pub drain_substream : (ℕ → Reply (Unit {0})) → ℕ → Ended StreamPairError (Unit {0})
  drain_substream drain direction = conclude (drain direction)

  unfoldable pub drop_substream : (ℕ → Reply (Unit {0})) → ℕ → Ended StreamPairError (Unit {0})
  drop_substream drop direction = conclude (drop direction)

  -- `read` gives the bytes that it stores; the number of them is the new size.
  unfoldable pub read_from_substream : (ℕ → Reply (List ℕ)) → ℕ → Ended StreamPairError (List ℕ × ℕ)
  read_from_substream read buf_size = elim (read buf_size) [
    | errno e ↦ failure (some (file_error e))
    | answer bytes ↦ success (bytes, length bytes)
  ]

  -- How many of the bytes are written is not looked at.
  unfoldable pub write_to_substream : (List ℕ → Reply ℕ) → List ℕ → Ended StreamPairError (Unit {0})
  write_to_substream write buf = elim (write buf) [
    | errno e ↦ failure (some (file_error e))
    | answer len ↦ success tt
  ]

  -- `getfl` is what `fcntl` gives for `F_GETFL`.
  unfoldable pub create_source : StreamPair → Reply ℕ → Ended StreamPairError (Unit {0})
  create_source self getfl = elim (self.fd) [
    | none ↦ failure none
    | some fd ↦ elim getfl [
      | errno e ↦ failure (some (file_or_failed_twice p failed e))
      | answer access_modes ↦
          if not (has_bit access_modes o_rdwr) && not (has_bit access_modes o_wronly)
          then failure (some (local unreadable))
          else success tt
    ]
  ]
