-- ===== src/Seq/Query/Tests.antt =====
-- Runs of src/seq/query.c at concrete values.
use alsa_gobject.Base.{
  ℕ, ◌-◌, ◌+◌, ◌%◌, ◌^◌, ◌≢◌, Bool, true, false, if◌then◌else◌, ◌==◌, ltb, none, some, List, [],
  ◌∷◌, ◌≡◌, refl, arith,
}
use alsa_gobject.Samples.{platform}
use alsa_gobject.Platform.{Reply, answer, errno, ended, success, fault}
use alsa_gobject.Descriptor.{Opened}
use alsa_gobject.Seq.Query.{
  SeqAddr, SystemInfo, QuerySubs, get_client_id_list, get_port_id_list, get_queue_id_list,
}
use alsa_gobject.Seq.Query.Lists.{Ascends}
use alsa_gobject.Seq.Query.Clients.{get_client_id_list-Walks, get_client_id_list-Ascends}
use alsa_gobject.Seq.Query.Ports.{get_port_id_list-Walks}
use alsa_gobject.Seq.Query.Queues.{get_queue_id_list-present}

abbrev opened : Opened
opened = record { truth = true; fd = some 5; error = none }

abbrev info : SystemInfo
info = record {
  queues = 4;
  clients = 192;
  ports = 254;
  channels = 256;
  cur_clients = 4;
  cur_queues = 2;
}

-- The clients 0, 14, 128, which is the caller, and 130.
abbrev next_client : ℕ → ℕ → Reply ℕ
next_client call last =
    if last == 2 ^ 32 - 1
    then answer 0
    else (if ltb last 14
        then answer 14
        else (if ltb last 128 then answer 128 else (if ltb last 130 then answer 130 else errno 2)))

get_client_id_list-Walks_example :
    get_client_id_list platform opened (answer 128) (answer info) next_client
    ≡ record { closed = 5 ∷ []; outcome = ended (success (0 ∷ (14 ∷ (130 ∷ [])))) }
get_client_id_list-Walks_example =
    get_client_id_list-Walks platform next_client 5 128 info (0 ∷ (14 ∷ (128 ∷ (130 ∷ []))))
      (omega arith) (omega arith) (omega arith) (refl, (refl, (refl, (refl, refl))))

-- A sequencer with the client 7 only, which is asked for again and again.
abbrev one_client : ℕ → ℕ → Reply ℕ
one_client call last = if ltb ((last + 1) % 2 ^ 32) 8 then answer 7 else errno 2

one_client-Ascends : Ascends one_client
one_client-Ascends call last id gives = ground (arith, gives)

get_client_id_list-Ascends_example :
    (get_client_id_list platform opened (answer 128) (answer info) one_client).outcome ≢ fault
get_client_id_list-Ascends_example =
    get_client_id_list-Ascends platform one_client 5 (answer 128) (answer info) one_client-Ascends

-- A client with two ports left of three that it counted.
abbrev next_port : ℕ → ℕ → ℕ → Reply ℕ
next_port client_id call last =
    if last == 255 then answer 0 else (if ltb last 3 then answer 3 else errno 2)

get_port_id_list-Walks_example :
    get_port_id_list platform opened (λ id. answer 3) next_port 14
    ≡ record { closed = 5 ∷ (5 ∷ []); outcome = ended (success (0 ∷ (3 ∷ (0 ∷ [])))) }
get_port_id_list-Walks_example =
    get_port_id_list-Walks platform (λ id. answer 3) next_port 5 14 3 (0 ∷ (3 ∷ [])) refl
      (omega arith) (refl, (refl, refl))

-- The queues 1 and 3.
abbrev queue_info : ℕ → Reply ℕ
queue_info i = if i == 1 then answer i else (if i == 3 then answer i else errno 22)

get_queue_id_list-present_example :
    get_queue_id_list platform opened (answer info) queue_info
    ≡ record { closed = 5 ∷ []; outcome = ended (success (some (1 ∷ (3 ∷ [])))) }
get_queue_id_list-present_example =
    get_queue_id_list-present queue_info platform 5 info (omega arith)

abbrev port : SeqAddr
port = record { client = 14; port = 0 }

abbrev one_subscription : ℕ → QuerySubs → Reply QuerySubs
one_subscription call query =
    if query.index == 0 then answer (record query { num_subs = 1; addr = port }) else errno 2

abbrev node : Reply (List ℕ)
node = answer (115 ∷ [])

abbrev open_node : List ℕ → Reply ℕ
open_node name = answer 5

-- The name that is left of two characters in a member of two bytes.
abbrev name_is : List ℕ → Bool
name_is [] = false
name_is (c ∷ cs) = c == 97

abbrev named_queue : List ℕ → Reply ℕ
named_queue name = if name_is name then answer 1 else errno 2

abbrev refused_port : SeqAddr → Reply ℕ
refused_port addr = errno 6

abbrev same_status : ℕ → ℕ → Reply ℕ
same_status id status = answer status
