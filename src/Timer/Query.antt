-- ===== src/Timer/Query.antt =====
-- src/timer/query.c: calls that open the timer device, ask it, and close it again, and a parameter of
-- the kernel module. What the driver answers is a parameter; for the walk from one device to the next
-- it may depend on how often it was asked before.
mod Tests
pub mod Devices
pub mod Clock
use alsa_gobject.Base.{
  ℕ, zero, suc, ◌+◌, ◌-◌, ◌/◌, ◌%◌, ◌^◌, Bool, true, false, if◌then◌else◌, ◌==◌, ltb, Option, none,
  some, List, [], ◌∷◌, ◌++◌, length, replicate,
}
use alsa_gobject.Platform.{
  Platform, Reply, answer, errno, Ended, success, failure, Outcome, fault, ended,
  generate_file_error,
}
use alsa_gobject.Descriptor.{NoCode, Session, Opened, finish, look_up, with_fd, ask}
use alsa_gobject.Utils.Strings.{long_from_string}
use alsa_gobject.Timer.UserInstance.{DeviceId}

-- `SNDRV_TIMER_CLASS_NONE`, -1 in 32 bits.
abbrev pub timer_class_none : ℕ
timer_class_none = 2 ^ 32 - 1

-- The identifier that the walk starts from.
abbrev pub first_id : DeviceId
first_id = record {
  dev_class = timer_class_none;
  dev_sclass = 0;
  card = 0;
  device = 0;
  subdevice = 0;
}

-- `CLOCK_REALTIME` and `CLOCK_MONOTONIC`
pub data ClockId : Type 0 where
  realtime monotonic : ClockId

-- The loop that counts the digits of a number; each round has a smaller one.
unfoldable pub count_digits : ℕ → ℕ → ℕ
count_digits zero val = 0
count_digits (suc fuel) val =
    let rest = count_digits fuel (val / 10) in if ltb 0 val then suc rest else 0

-- The number of bytes that `read` is called with: the digits of the greatest `int`, a sign and a new
-- line.
unfoldable pub buffer_size : ℕ
buffer_size = count_digits 32 (2 ^ 31 - 1) + 2

module _ (p : Platform) where
  unfoldable pub get_sysname : Reply (List ℕ) → Ended NoCode (List ℕ)
  get_sysname sysname = look_up p sysname

  unfoldable pub get_devnode : Reply (List ℕ) → Ended NoCode (List ℕ)
  get_devnode devnode = look_up p devnode

  -- The loop over the devices; the entries that are found are appended to the list of the caller, and stay
  -- there when an `ioctl` fails. `fault` stands for a loop that goes on.
  unfoldable pub collect_devices :
      (ℕ → DeviceId → Reply DeviceId)
      → ℕ
      → ℕ
      → DeviceId
      → List DeviceId
      → List DeviceId × Outcome NoCode (Unit {0})
  collect_devices next zero call id entries = (entries, fault)
  collect_devices next (suc fuel) call id entries = elim (next call id) [
    | errno e ↦ (entries, ended (failure (some (generate_file_error p e))))
    | answer id' ↦ elim (id'.dev_class == timer_class_none) [
      | true ↦ (entries, ended (success tt))
      | false ↦ collect_devices next fuel (suc call) id' (entries ++ (id' ∷ []))
    ]
  ]

  -- The loop runs as long as there are devices; `fuel` bounds its rounds.
  unfoldable pub get_device_id_list :
      ℕ
      → Opened
      → (ℕ → DeviceId → Reply DeviceId)
      → List DeviceId
      → List DeviceId × Session (Unit {0})
  get_device_id_list fuel o next entries =
      let (entries', outcome) = collect_devices next fuel 0 first_id entries in
      if o.truth
      then (elim (o.fd) [
        | none ↦ (entries, record { closed = []; outcome = fault })
        | some fd ↦ (entries', record { closed = fd ∷ []; outcome = outcome })
      ])
      else (entries, record { closed = []; outcome = ended (failure (o.error)) })

  module _ {A : Type 0} where
    unfoldable pub get_device_info : Opened → (DeviceId → Reply A) → DeviceId → Session A
    get_device_info o ginfo device_id = with_fd o (λ fd. ask p (λ i. i) fd (ginfo device_id))

    -- The structure is one of the caller's object, whose number of references is given and given back: a
    -- failed `ioctl` takes one away.
    unfoldable pub get_device_status :
        Opened → (DeviceId → A → Reply A) → DeviceId → A → ℕ → ℕ × Session A
    get_device_status o gstatus device_id status references =
        let session = with_fd o (λ fd. ask p (λ i. i) fd (gstatus device_id status)) in
        elim (o.fd) [
          | none ↦ (references, session)
          | some fd ↦ elim (gstatus device_id status) [
            | answer status' ↦ (references, session)
            | errno e ↦ (references - 1, session)
          ]
        ]

    unfoldable pub set_device_params :
        Opened → (DeviceId → A → Reply (Unit {0})) → DeviceId → A → Session (Unit {0})
    set_device_params o gparams device_id params =
        with_fd o (λ fd. ask p (λ i. i) fd (gparams device_id params))

  -- The buffer is zero before, and `read` stores at most as many bytes as it has. A number is cut off to
  -- an `int`.
  unfoldable pub timer_get_node_param_value : Reply ℕ → (ℕ → Reply (List ℕ)) → ℕ → Session ℕ
  timer_get_node_param_value (errno e) read size = record {
    closed = [];
    outcome = ended (failure (some (generate_file_error p e)));
  }
  timer_get_node_param_value (answer fd) read size = elim (read size) [
    | errno e ↦ finish fd (failure (some (generate_file_error p e)))
    | answer bytes ↦ elim (long_from_string p (bytes ++ replicate (size - length bytes) 0)) [
      | none ↦ record { closed = []; outcome = fault }
      | some (errno e) ↦ finish fd (failure (some (generate_file_error p e)))
      | some (answer v) ↦ finish fd (success (v % 2 ^ 32))
    ]
  ]

  unfoldable pub clock_of : ℕ → Ended NoCode ClockId
  clock_of val =
      if val == 0
      then success realtime
      else (if val == 1
          then success monotonic
          else failure (some (generate_file_error p (p.eproto))))

  unfoldable pub get_real_time_clock_id : Reply ℕ → (ℕ → Reply (List ℕ)) → Session ClockId
  get_real_time_clock_id node read =
      let session = timer_get_node_param_value node read buffer_size in
      elim (session.outcome) [
        | fault ↦ record { closed = session.closed; outcome = fault }
        | ended (failure error) ↦ record {
          closed = session.closed;
          outcome = ended (failure error);
        }
        | ended (success val) ↦ record { closed = session.closed; outcome = ended (clock_of val) }
      ]
