-- ===== src/Timer/UserInstance.antt =====
-- src/timer/user-instance.c: the object for an instance of a timer. What the driver answers to an
-- `ioctl` is a parameter. The checks of `g_return_val_if_fail` on values end a call with FALSE and no
-- error; those on classes and on NULL have no counterpart.
pub mod Reading
pub mod Modes
pub mod Sources
use alsa_gobject.Base.{
  ℕ, zero, suc, ◌-◌, ◌/◌, ◌%◌, ◌^◌, Bool, ◌||◌, if◌then◌else◌, ◌==◌, leb, Option, none, some, List,
  [], ◌∷◌, drop,
}
use alsa_gobject.Platform.{
  Platform, Reply, answer, errno, GError, local, Ended, success, failure, file_or_failed_twice,
}

-- `ALSATimerUserInstanceError`
pub data UserInstanceError : Type 0 where
  failed timer_not_found not_attached attached : UserInstanceError

-- `ALSATimerEventType`
pub data EventType : Type 0 where
  tick_time real_time : EventType

-- The number of an event type that goes to the driver.
abbrev pub event_type_number : EventType → ℕ
event_type_number tick_time = 0
event_type_number real_time = 1

-- `ALSATimerUserInstancePrivate`; `none` is a negative descriptor.
pub record UserInstance : Type 0 where
  pub fd : Option ℕ
  pub event_type : EventType
  pub proto_ver_triplet : ℕ × ℕ × ℕ

-- `snd_timer_select.id`
pub record DeviceId : Type 0 where
  pub dev_class : ℕ
  pub dev_sclass : ℕ
  pub card : ℕ
  pub device : ℕ
  pub subdevice : ℕ

-- The events of the two modes stay abstract here.
pub data Signal (Tick Real : Type 0) : Type 0 where
  handle_tick_time_event : Tick → Signal Tick Real
  handle_real_time_event : Real → Signal Tick Real
  handle_disconnection : Signal Tick Real

-- `G_SOURCE_REMOVE` and `G_SOURCE_CONTINUE`
pub data SourceEnd : Type 0 where
  remove continue : SourceEnd

pub record Condition : Type 0 where
  pub io_in : Bool
  pub io_err : Bool

abbrev pub conclude : {A : Type 0} → (ℕ → UserInstanceError) → Reply A → Ended UserInstanceError A
conclude classify (answer a) = success a
conclude classify (errno e) = failure (some (local (classify e)))

unfoldable pub new : UserInstance
new = record { fd = none; event_type = tick_time; proto_ver_triplet = (0, 0, 0) }

unfoldable pub get_protocol_version : UserInstance → Ended UserInstanceError (ℕ × ℕ × ℕ)
get_protocol_version self = elim (self.fd) [
  | none ↦ failure none
  | some fd ↦ success (self.proto_ver_triplet)
]

unfoldable pub attach_as_slave :
    (DeviceId → Reply (Unit {0})) → ℕ → ℕ → ℕ → Ended UserInstanceError (Unit {0})
attach_as_slave select class_slave slave_class slave_id =
    conclude (λ e. failed)
      (select (record {
        dev_class = class_slave;
        dev_sclass = slave_class;
        card = 0;
        device = slave_id;
        subdevice = 0;
      }))

unfoldable pub check_src : Condition → Bool
check_src c = c.io_in || c.io_err

module _ (p : Platform) where
  -- The path of the device node is found already. The error of `open` is made of the code.
  unfoldable pub open_instance :
      UserInstance → Reply ℕ → Reply ℕ → UserInstance × Ended UserInstanceError (Unit {0})
  open_instance self (errno e) pversion =
      (record self { fd = none }, failure (some (file_or_failed_twice p failed e)))
  open_instance self (answer fd) (errno e) =
      (record self { fd = none }, failure (some (local failed)))
  open_instance self (answer fd) (answer proto_ver) = (
    record self {
      fd = some fd;
      proto_ver_triplet =
          (proto_ver / 2 ^ 16 % 2 ^ 16, proto_ver / 2 ^ 8 % 2 ^ 8, proto_ver % 2 ^ 8);
    },
    success tt,
  )

  -- `tread` is the `ioctl` that sets the mode of the driver.
  unfoldable pub choose_event_type :
      (ℕ → Reply (Unit {0}))
      → UserInstance
      → EventType
      → UserInstance × Ended UserInstanceError (Unit {0})
  choose_event_type tread self event_type = elim (tread (event_type_number event_type)) [
    | errno e ↦ (self, failure (some (local (if e == p.ebusy then attached else failed))))
    | answer done ↦ (record self { event_type = event_type }, success tt)
  ]

  unfoldable pub attach :
      (DeviceId → Reply (Unit {0})) → DeviceId → Ended UserInstanceError (Unit {0})
  attach select device_id =
      conclude (λ e. if e == p.enodev then timer_not_found else failed) (select device_id)

  unfoldable pub attached_error : ℕ → UserInstanceError
  attached_error e = if e == p.ebadfd then not_attached else failed

  -- The calls that only an attached instance answers: what they read or write is a structure of the
  -- kernel's.
  module _ {A : Type 0} where
    unfoldable pub get_info : Reply A → Ended UserInstanceError A
    get_info reply = conclude attached_error reply

    unfoldable pub set_params : (A → Reply (Unit {0})) → A → Ended UserInstanceError (Unit {0})
    set_params params instance_params = conclude attached_error (params instance_params)

    unfoldable pub get_status : (A → Reply A) → A → Ended UserInstanceError A
    get_status status instance_status = conclude attached_error (status instance_status)

  unfoldable pub start : Reply (Unit {0}) → Ended UserInstanceError (Unit {0})
  start reply = conclude attached_error reply

  unfoldable pub stop : Reply (Unit {0}) → Ended UserInstanceError (Unit {0})
  stop reply = conclude attached_error reply

  unfoldable pub pause : Reply (Unit {0}) → Ended UserInstanceError (Unit {0})
  pause reply = conclude attached_error reply

  unfoldable pub continue_instance : Reply (Unit {0}) → Ended UserInstanceError (Unit {0})
  continue_instance reply = conclude attached_error reply

module _ {Tick Real : Type 0} (tick_size : ℕ) (parse_tick : List ℕ → Tick) (real_size : ℕ)
    (parse_real : List ℕ → Real) where
  -- Each round takes one event from the bytes, so that as much fuel as there are bytes is enough.
  unfoldable pub dispatch_tick_time_events : ℕ → ℕ → List ℕ → List (Signal Tick Real)
  dispatch_tick_time_events zero length buf = []
  dispatch_tick_time_events (suc fuel) length buf =
      let rest = dispatch_tick_time_events fuel (length - tick_size) (drop tick_size buf) in
      if leb tick_size length then handle_tick_time_event (parse_tick buf) ∷ rest else []

  unfoldable pub dispatch_real_time_events : ℕ → ℕ → List ℕ → List (Signal Tick Real)
  dispatch_real_time_events zero length buf = []
  dispatch_real_time_events (suc fuel) length buf =
      let rest = dispatch_real_time_events fuel (length - real_size) (drop real_size buf) in
      if leb real_size length then handle_real_time_event (parse_real buf) ∷ rest else []

  unfoldable pub dispatch_src :
      Platform → UserInstance → Condition → Reply (ℕ × List ℕ) → List (Signal Tick Real) × SourceEnd
  dispatch_src p self c reply = elim (self.fd) [
    | none ↦ ([], remove)
    | some fd ↦ if c.io_err then (handle_disconnection ∷ [], remove) else (elim reply [
      | errno e ↦ ([], if e == p.eagain then continue else remove)
      | answer (len, buf) ↦ elim (self.event_type) [
        | tick_time ↦ (dispatch_tick_time_events len len buf, continue)
        | real_time ↦ (dispatch_real_time_events len len buf, continue)
      ]
    ])
  ]
