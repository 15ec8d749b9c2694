-- ===== src/Seq/UserClient.antt =====
-- src/seq/user-client.c: the object for a client of the sequencer. What the sequencer answers to an
-- `ioctl` is a parameter, a function of the structure that the call gives it. A structure is modelled by
-- the members that the functions write, and `rest` is what else it holds. The checks of
-- `g_return_val_if_fail` on classes and on NULL have no counterpart.
mod Tests
pub mod Delivery
pub mod Sources
use alsa_gobject.Base.{
  ℕ, ◌/◌, ◌%◌, ◌^◌, Bool, true, false, ◌||◌, if◌then◌else◌, ◌==◌, bit_or, Option, none, some, List,
}
use alsa_gobject.Platform.{
  Platform, Reply, answer, errno, local, Ended, success, failure, file_or_failed_twice,
}
use alsa_gobject.Seq.Event.{Addr}
use alsa_gobject.Seq.EventCntr.{EventCntr}
use alsa_gobject.Seq.Schedule.{UserClientError, failed, port_permission, queue_permission}

-- `ALSASeqUserClientPrivate` without the path; `none` is a negative descriptor.
pub record UserClient : Type 0 where
  pub fd : Option ℕ
  pub client_id : ℕ
  pub proto_ver_triplet : ℕ × ℕ × ℕ

pub record ClientInfo (Rest : Type 0) : Type 0 where
  pub client : ℕ
  pub is_user : Bool
  pub rest : Rest

pub record PortInfo (Rest : Type 0) : Type 0 where
  pub addr : Addr
  pub flags : ℕ
  pub rest : Rest

pub record ClientPool (Rest : Type 0) : Type 0 where
  pub client : ℕ
  pub rest : Rest

pub record QueueClient : Type 0 where
  pub queue : ℕ
  pub client : ℕ
  pub used : Bool

pub record QueueOwner : Type 0 where
  pub queue : ℕ
  pub owner : ℕ

-- A structure of a queue: its tempo or its timer.
pub record ForQueue (Rest : Type 0) : Type 0 where
  pub queue : ℕ
  pub rest : Rest

-- `G_SOURCE_REMOVE` and `G_SOURCE_CONTINUE`
pub data SourceEnd : Type 0 where
  remove continue : SourceEnd

pub record Condition : Type 0 where
  pub io_in : Bool
  pub io_err : Bool

abbrev pub conclude : {A : Type 0} → (ℕ → UserClientError) → Reply A → Ended UserClientError A
conclude classify (answer a) = success a
conclude classify (errno e) = failure (some (local (classify e)))

-- The calls with the one code of a failed system call.
abbrev pub or_failed : {A : Type 0} → Reply A → Ended UserClientError A
or_failed reply = conclude (λ e. failed) reply

unfoldable pub get_protocol_version : UserClient → Ended UserClientError (ℕ × ℕ × ℕ)
get_protocol_version self = elim (self.fd) [
  | none ↦ failure none
  | some fd ↦ success (self.proto_ver_triplet)
]

-- The path of the device node is found already. Where a later step fails, what an earlier one wrote
-- stays.
unfoldable pub open_client :
    Platform
    → UserClient
    → Reply ℕ
    → Reply ℕ
    → Reply ℕ
    → UserClient × Ended UserClientError (Unit {0})
open_client p self (errno e) client_id pversion =
    (record self { fd = none }, failure (some (file_or_failed_twice p failed e)))
open_client p self (answer fd) (errno e) pversion =
    (record self { fd = none }, failure (some (local failed)))
open_client p self (answer fd) (answer id) (errno e) =
    (record self { fd = none; client_id = id }, failure (some (local failed)))
open_client p self (answer fd) (answer id) (answer proto_ver) = (
  record {
    fd = some fd;
    client_id = id;
    proto_ver_triplet = (proto_ver / 2 ^ 16 % 2 ^ 16, proto_ver / 2 ^ 8 % 2 ^ 8, proto_ver % 2 ^ 8);
  },
  success tt,
)

module _ (self : UserClient) {Rest : Type 0} where
  unfoldable pub set_info :
      (ClientInfo Rest → Reply (ClientInfo Rest))
      → ClientInfo Rest
      → Ended UserClientError (ClientInfo Rest)
  set_info request info =
      or_failed (request (record info { client = self.client_id; is_user = true }))

  unfoldable pub get_info :
      (ClientInfo Rest → Reply (ClientInfo Rest))
      → ClientInfo Rest
      → Ended UserClientError (ClientInfo Rest)
  get_info request info = or_failed (request (record info { client = self.client_id }))

  unfoldable pub create_port :
      (PortInfo Rest → Reply (PortInfo Rest))
      → PortInfo Rest
      → Ended UserClientError (PortInfo Rest)
  create_port request info =
      or_failed
        (request (record info { addr = record { client = self.client_id; port = info.addr.port } }))

  -- `given_port` is `SNDRV_SEQ_PORT_FLG_GIVEN_PORT`.
  unfoldable pub create_port_at :
      ℕ
      → (PortInfo Rest → Reply (PortInfo Rest))
      → PortInfo Rest
      → ℕ
      → Ended UserClientError (PortInfo Rest)
  create_port_at given_port request info port_id = create_port request (record info {
    addr = record { client = info.addr.client; port = port_id };
    flags = bit_or info.flags given_port;
  })

  unfoldable pub update_port :
      (PortInfo Rest → Reply (PortInfo Rest))
      → PortInfo Rest
      → ℕ
      → Ended UserClientError (PortInfo Rest)
  update_port request info port_id =
      or_failed
        (request (record info { addr = record { client = self.client_id; port = port_id } }))

  -- `zeros` is the rest of a structure of zero bytes.
  unfoldable pub delete_port :
      Rest → (PortInfo Rest → Reply (PortInfo Rest)) → ℕ → Ended UserClientError (PortInfo Rest)
  delete_port zeros request port_id = or_failed (
      request (record {
        addr = record { client = self.client_id; port = port_id };
        flags = 0;
        rest = zeros;
      }))

  unfoldable pub set_pool :
      (ClientPool Rest → Reply (ClientPool Rest))
      → ClientPool Rest
      → Ended UserClientError (ClientPool Rest)
  set_pool request pool = or_failed (request (record pool { client = self.client_id }))

  unfoldable pub get_pool :
      (ClientPool Rest → Reply (ClientPool Rest))
      → ClientPool Rest
      → Ended UserClientError (ClientPool Rest)
  get_pool request pool = or_failed (request (record pool { client = self.client_id }))

unfoldable pub delete_queue :
    UserClient → (QueueOwner → Reply (Unit {0})) → ℕ → Ended UserClientError (Unit {0})
delete_queue self request queue_id =
    or_failed (request (record { queue = queue_id; owner = self.client_id }))

-- The structure is zero but for the queue: the sequencer fills in the client itself.
unfoldable pub get_queue_usage : (QueueClient → Reply QueueClient) → ℕ → Ended UserClientError Bool
get_queue_usage request queue_id =
    elim (request (record { queue = queue_id; client = 0; used = false })) [
      | answer data' ↦ success (data'.used)
      | errno e ↦ failure (some (local failed))
    ]

unfoldable pub set_queue_usage :
    UserClient → (QueueClient → Reply QueueClient) → ℕ → Bool → Ended UserClientError QueueClient
set_queue_usage self request queue_id use_queue =
    or_failed (request (record { queue = queue_id; client = self.client_id; used = use_queue }))

unfoldable pub check_src : Condition → Bool
check_src c = c.io_in || c.io_err

module _ (p : Platform) where
  abbrev pub permission_error : UserClientError → ℕ → UserClientError
  permission_error code e = if e == p.eperm then code else failed

  module _ {A : Type 0} where
    unfoldable pub operate_subscription :
        (A → Reply A) → (A → Reply A) → A → Bool → Ended UserClientError A
    operate_subscription subscribe_port unsubscribe_port subs_data establish =
        conclude (permission_error port_permission)
          (if establish then subscribe_port subs_data else unsubscribe_port subs_data)

    unfoldable pub create_queue : (A → Reply A) → A → Ended UserClientError A
    create_queue request queue_info = or_failed (request queue_info)

    unfoldable pub update_queue : (A → Reply A) → A → Ended UserClientError A
    update_queue request queue_info =
        conclude (permission_error queue_permission) (request queue_info)

    unfoldable pub set_queue_tempo :
        (ForQueue A → Reply (ForQueue A)) → ℕ → ForQueue A → Ended UserClientError (ForQueue A)
    set_queue_tempo request queue_id tempo =
        conclude (permission_error queue_permission) (request (record tempo { queue = queue_id }))

    unfoldable pub get_queue_tempo :
        A → (ForQueue A → Reply (ForQueue A)) → ℕ → Ended UserClientError (ForQueue A)
    get_queue_tempo zeros request queue_id =
        or_failed (request (record { queue = queue_id; rest = zeros }))

    unfoldable pub remove_events : (A → Reply A) → A → Ended UserClientError A
    remove_events request filter = or_failed (request filter)

  -- Only the timer of the type `SNDRV_SEQ_TIMER_ALSA` is supported.
  module _ {A : Type 0} (is_alsa : A → Bool) where
    unfoldable pub set_queue_timer :
        (ForQueue A → Reply (ForQueue A)) → ℕ → ForQueue A → Ended UserClientError (ForQueue A)
    set_queue_timer request queue_id timer =
        if is_alsa timer.rest
        then conclude (permission_error queue_permission)
            (request (record timer { queue = queue_id }))
        else failure none

    unfoldable pub get_queue_timer :
        A → (ForQueue A → Reply (ForQueue A)) → ℕ → Ended UserClientError (ForQueue A)
    get_queue_timer zeros request queue_id =
        elim (request (record { queue = queue_id; rest = zeros })) [
          | errno e ↦ failure (some (local failed))
          | answer data' ↦ if is_alsa data'.rest then success data' else failure none
        ]

  -- The container that the signal `handle-event` carries, if it is emitted; the reply is that of
  -- `read`, with its result and the bytes.
  unfoldable pub dispatch_src :
      UserClient → Condition → Reply (ℕ × List ℕ) → Option EventCntr × SourceEnd
  dispatch_src self c reply = elim (self.fd) [
    | none ↦ (none, remove)
    | some fd ↦ if c.io_err then (none, remove) else (elim reply [
      | errno e ↦ (none, if e == p.eagain then continue else remove)
      | answer (len, buf) ↦
          (some (record { buf = some buf; length = len; aligned = true }), continue)
    ])
  ]
