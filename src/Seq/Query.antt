-- ===== src/Seq/Query.antt =====
-- src/seq/query.c: calls that open the sequencer, ask it, and close it again. What the sequencer does
-- at an `ioctl` is a parameter; for a query that walks from one identifier to the next it may depend
-- on how often it was asked before. A structure of the kernel's is a type of its own where the code
-- only hands it on.
mod Tests
pub mod Lists
pub mod Clients
pub mod Ports
pub mod Queues
pub mod Subscriptions
pub mod Objects
use alsa_gobject.Base.{
  ℕ, zero, suc, ◌+◌, ◌-◌, ◌%◌, ◌^◌, min, Bool, true, false, if◌then◌else◌, ◌==◌, ltb, leb, Option,
  none, some, List, [], ◌∷◌, ◌++◌, take, length, replicate,
}
use alsa_gobject.Platform.{
  Platform, Reply, answer, errno, Ended, success, failure, Outcome, fault, ended,
  generate_file_error,
}
use alsa_gobject.Descriptor.{NoCode, Session, Opened, finish, with_fd, look_up, ask}

-- `struct snd_seq_system_info`
pub record SystemInfo : Type 0 where
  pub queues : ℕ
  pub clients : ℕ
  pub ports : ℕ
  pub channels : ℕ
  pub cur_clients : ℕ
  pub cur_queues : ℕ

-- `struct snd_seq_addr`
pub record SeqAddr : Type 0 where
  pub client : ℕ
  pub port : ℕ

-- `struct snd_seq_query_subs`
pub record QuerySubs : Type 0 where
  pub root : SeqAddr
  pub query_type : ℕ
  pub index : ℕ
  pub num_subs : ℕ
  pub addr : SeqAddr
  pub queue : ℕ
  pub flags : ℕ

-- `struct snd_seq_port_subscribe`
pub record PortSubscribe : Type 0 where
  pub sender : SeqAddr
  pub dest : SeqAddr
  pub queue : ℕ
  pub flags : ℕ

-- `SNDRV_SEQ_QUERY_SUBS_READ`
abbrev pub query_subs_read : ℕ
query_subs_read = 0

-- The value -1 in a word of `w` bits.
abbrev pub minus_one : ℕ → ℕ
minus_one w = 2 ^ w - 1

-- `list[index] = value`; `none` where the index is behind the allocated slots.
unfoldable pub put : List ℕ → ℕ → ℕ → Option (List ℕ)
put [] index value = none
put (x ∷ xs) zero value = some (value ∷ xs)
put (x ∷ xs) (suc index) value = elim (put xs index value) [ none ↦ none | some ys ↦ some (x ∷ ys) ]

-- The query for the first subscription of a port.
abbrev pub first_query : SeqAddr → ℕ → QuerySubs
first_query root query_type = record {
  root = root;
  query_type = query_type;
  index = 0;
  num_subs = 0;
  addr = record { client = 0; port = 0 };
  queue = 0;
  flags = 0;
}

unfoldable pub fill_data_with_result : QuerySubs → PortSubscribe
fill_data_with_result query =
    if query.query_type == query_subs_read
    then record { sender = query.root; dest = query.addr; queue = query.queue; flags = query.flags }
    else record { sender = query.addr; dest = query.root; queue = query.queue; flags = query.flags }

module _ (p : Platform) where
  unfoldable pub get_seq_sysname : Reply (List ℕ) → Ended NoCode (List ℕ)
  get_seq_sysname sysname = look_up p sysname

  unfoldable pub get_seq_devnode : Reply (List ℕ) → Ended NoCode (List ℕ)
  get_seq_devnode devnode = look_up p devnode

  -- The connection of the query itself is not counted.
  unfoldable pub get_system_info : Opened → Reply SystemInfo → Session SystemInfo
  get_system_info o reply = with_fd o (λ fd.
      ask p
        (λ (info : SystemInfo). record info {
          cur_clients = (info.cur_clients + (2 ^ 32 - 1)) % 2 ^ 32;
        })
        fd reply)

  -- The loop over the identifiers from one to the next, until as many are stored as were counted, or
  -- there is no other. One that `skip` tells is not stored.
  module _ (next : ℕ → ℕ → Reply ℕ) (skip : ℕ → Bool) (count : ℕ) where
    unfoldable pub walk : ℕ → ℕ → ℕ → ℕ → List ℕ → Outcome NoCode (List ℕ)
    walk zero call last index list = fault
    walk (suc fuel) call last index list =
        if ltb index count
        then (elim (next call last) [
          | errno e ↦
              if e == p.enoent
              then ended (success list)
              else ended (failure (some (generate_file_error p e)))
          | answer id ↦ elim (skip id) [
            | true ↦ walk fuel (suc call) id index list
            | false ↦ elim (put list index (id % 2 ^ 8)) [
              | none ↦ fault
              | some list' ↦ walk fuel (suc call) id (suc index) list'
            ]
          ]
        ])
        else ended (success list)

  -- An identifier is at most 2^32 times asked for. Without another client nothing is stored in
  -- `entries`, which stands for the empty list here.
  unfoldable pub get_client_id_list :
      Opened → Reply ℕ → Reply SystemInfo → (ℕ → ℕ → Reply ℕ) → Session (List ℕ)
  get_client_id_list o my_id system_info next_client = with_fd o (λ fd. elim my_id [
    | errno e ↦ finish fd (failure (some (generate_file_error p e)))
    | answer me ↦ elim system_info [
      | errno e ↦ finish fd (failure (some (generate_file_error p e)))
      | answer info ↦
          let count = (info.cur_clients + (2 ^ 32 - 1)) % 2 ^ 32 in
          if count == 0 then finish fd (success []) else record {
            closed = fd ∷ [];
            outcome =
                walk next_client (λ id. id == me) count (2 ^ 32) 0 (minus_one 32) 0
                  (replicate count 0);
          }
    ]
  ])

  -- `num_ports` is what `SNDRV_SEQ_IOCTL_GET_CLIENT_INFO` gives for the client. The descriptor is
  -- closed behind the loop, and again at the end.
  unfoldable pub get_port_id_list :
      Opened → (ℕ → Reply ℕ) → (ℕ → ℕ → ℕ → Reply ℕ) → ℕ → Session (List ℕ)
  get_port_id_list o num_ports next_port client_id = with_fd o (λ fd. elim (num_ports client_id) [
    | errno e ↦ finish fd (failure (some (generate_file_error p e)))
    | answer count ↦ record {
      closed = fd ∷ (fd ∷ []);
      outcome =
          walk (next_port client_id) (λ id. false) count (2 ^ 32) 0 (minus_one 8) 0
            (replicate count 0);
    }
  ])

  -- The information of the client, the port, the pool and the queue.
  module _ {Info : Type 0} where
    unfoldable pub get_client_info : Opened → (ℕ → Reply Info) → ℕ → Session Info
    get_client_info o ioctl client_id = with_fd o (λ fd. ask p (λ i. i) fd (ioctl client_id))

    unfoldable pub get_port_info : Opened → (SeqAddr → Reply Info) → ℕ → ℕ → Session Info
    get_port_info o ioctl client_id port_id =
        with_fd o (λ fd. ask p (λ i. i) fd (ioctl (record { client = client_id; port = port_id })))

    unfoldable pub get_client_pool : Opened → (ℕ → Reply Info) → ℕ → Session Info
    get_client_pool o ioctl client_id = with_fd o (λ fd. ask p (λ i. i) fd (ioctl client_id))

    unfoldable pub get_queue_info_by_id : Opened → (ℕ → Reply Info) → ℕ → Session Info
    get_queue_info_by_id o ioctl queue_id = with_fd o (λ fd. ask p (λ i. i) fd (ioctl queue_id))

    -- `g_strlcpy` keeps one place of the member for the end mark.
    unfoldable pub get_queue_info_by_name :
        ℕ → Opened → (List ℕ → Reply Info) → List ℕ → Session Info
    get_queue_info_by_name size o ioctl name =
        with_fd o (λ fd. ask p (λ i. i) fd (ioctl (take (size - 1) name)))

    -- The structure is one of the caller's, of which the number of the queue is set. Whether the object
    -- is of the class is tested behind the opening, and the call ends there if it is not.
    unfoldable pub get_queue_status :
        Opened → (ℕ → Info → Reply Info) → ℕ → Bool → Info → Session Info
    get_queue_status o ioctl queue_id of_class status = with_fd o (λ fd.
        if of_class
        then ask p (λ i. i) fd (ioctl queue_id status)
        else record { closed = []; outcome = ended (failure none) })

  -- The loop over the numbers of queues, with the number of those stored. A queue that the sequencer
  -- does not know is passed over.
  module _ {Info : Type 0} (queue_info : ℕ → Reply Info) (count : ℕ) where
    unfoldable pub collect_queues : ℕ → ℕ → ℕ → List ℕ → Option (List ℕ)
    collect_queues zero i index list = some list
    collect_queues (suc left) i index list = elim (queue_info i) [
      | errno e ↦ collect_queues left (suc i) index list
      | answer info ↦ elim (put list index (i % 2 ^ 8)) [
        | none ↦ none
        | some list' ↦ elim (leb count (suc index)) [
          | true ↦ some list'
          | false ↦ collect_queues left (suc i) (suc index) list'
        ]
      ]
    ]

  -- The result is `none` where the call succeeds and stores neither the entries nor their number.
  unfoldable pub get_queue_id_list :
      {Info : Type 0} → Opened → Reply SystemInfo → (ℕ → Reply Info) → Session (Option (List ℕ))
  get_queue_id_list o system_info queue_info = with_fd o (λ fd. elim system_info [
    | errno e ↦ finish fd (failure (some (generate_file_error p e)))
    | answer info ↦
        if info.cur_queues == 0
        then finish fd (success none)
        else (elim (collect_queues queue_info (info.cur_queues) (info.queues) 0 0
            (replicate (info.cur_queues) 0)) [
              | none ↦ record { closed = []; outcome = fault }
              | some list ↦ finish fd (success (some list))
            ])
  ])

  -- The loop over the subscriptions, with the query as the last `ioctl` left it. The error of a failed
  -- `ioctl` is set for another number than `ENOENT`. The variable for the result is not set before
  -- an `ioctl` fails, so that to come out of the loop without a failure is undefined.
  abbrev pub subs_failure : ℕ → Ended NoCode (List PortSubscribe)
  subs_failure e = if e == p.enoent then failure none else failure (some (generate_file_error p e))

  module _ (query_subs : ℕ → QuerySubs → Reply QuerySubs) where
    unfoldable pub collect_subs :
        ℕ → ℕ → QuerySubs → List PortSubscribe → Outcome NoCode (List PortSubscribe)
    collect_subs zero call query entries = fault
    collect_subs (suc left) call query entries =
        let asked : QuerySubs = record query { index = (query.index + 1) % 2 ^ 32 } in
        elim (query_subs call asked) [
          | errno e ↦ ended (subs_failure e)
          | answer query' ↦
              collect_subs left (suc call) query' (entries ++ (fill_data_with_result query ∷ []))
        ]

  -- `object_get` is what `g_object_get` leaves in the root of the query. The address that it is given is
  -- a boxed structure, not an object, for which GLib does not say what this is.
  unfoldable pub get_subscription_list :
      Opened
      → (ℕ → QuerySubs → Reply QuerySubs)
      → (SeqAddr → SeqAddr)
      → SeqAddr
      → ℕ
      → List PortSubscribe
      → Session (List PortSubscribe)
  get_subscription_list o query_subs object_get addr query_type entries = with_fd o (λ fd.
      elim (query_subs 0 (first_query (object_get addr) query_type)) [
        | errno e ↦ finish fd (subs_failure e)
        | answer query ↦ record {
          closed = fd ∷ [];
          outcome = collect_subs query_subs (query.num_subs) 1 query entries;
        }
      ])
