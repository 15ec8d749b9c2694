-- ===== src/Ctl/Tests.antt =====
-- Runs of the parts of src/ctl at concrete values.
use alsa_gobject.Samples.{platform}
use alsa_gobject.Base.{
  ℕ, ◌-◌, ◌*◌, ◌^◌, ◌≡◌, ◌≤◌, ◌<◌, refl, min, Bool, true, false, none, some, List, [], ◌∷◌, ◌++◌,
  get_elem?, get_or, take, drop, length, if◌then◌else◌, ◌==◌, ltb, leb, leb→le, length-drop,
  Bool-cases, inl, inr, arith,
}
use alsa_gobject.Platform.{Reply, answer, errno, success, ended, fault}
use alsa_gobject.Records.{RecordLayout, images}
use alsa_gobject.Ctl.Card.{ElemId, Card}
use alsa_gobject.Ctl.Card.Lists.{ElemList, get_elem_id_list}
use alsa_gobject.Ctl.Card.Lists.Served.{serves, get_elem_id_list-serves}
use alsa_gobject.Ctl.Card.Lists.Growth.{get_elem_id_list_growth}
use alsa_gobject.Ctl.Card.Tlv.{Packet, Container, read_elem_tlv}
use alsa_gobject.Ctl.Card.Tlv.Containers.{IsTlvDriver, Filled, read_elem_tlv-bounds}
use alsa_gobject.Ctl.Card.Labels.{
  EnumNames, names_length, write_names, prepare_enum_names, parse_enum_names,
}
use alsa_gobject.Ctl.Card.Labels.Block.{read_names, prepare_enum_names-read, parse_enum_names-Names}
use alsa_gobject.Ctl.Card.Elems.{
  ElemInfo, boolean, accepts, prepared, add_or_replace_elems, add_elems, entries_from,
}
use alsa_gobject.Ctl.Card.Elems.Added.{Follow, add_elems-entries}
use alsa_gobject.Ctl.Card.Events.{
  CtlEvent, elem, unknown, continue, World, dispatch_src, elem_event_signal, handle_elem_event,
  get_subscribed, create_source,
}
use alsa_gobject.Ctl.Card.Events.Queue.{elem_signals, dispatch_src-images}
use alsa_gobject.Ctl.Card.Events.Subscription.{created, fresh, next, Reachable-subscribed}

abbrev volume : ElemId
volume = record { numid = 1; iface = 2; device = 0; subdevice = 0; name = 86 ∷ []; index = 0 }

abbrev balance : ElemId
balance = record { numid = 2; iface = 2; device = 0; subdevice = 0; name = 66 ∷ []; index = 0 }

get_elem_id_list-serves_example :
    get_elem_id_list platform (serves platform (volume ∷ (balance ∷ [])))
    ≡ ended (success (volume ∷ (balance ∷ [])))
get_elem_id_list-serves_example =
    get_elem_id_list-serves platform (volume ∷ (balance ∷ [])) (omega arith)

-- A card that gets its second element behind the first request.
abbrev grows : ℕ → ℕ → ℕ → Reply ElemList
grows call offset space =
    if call == 0
    then answer (record { count = 1; pids = [] })
    else answer (record { count = 2; pids = take space (drop offset (volume ∷ (balance ∷ []))) })

get_elem_id_list_growth_example : get_elem_id_list platform grows ≡ fault
get_elem_id_list_growth_example =
    get_elem_id_list_growth platform grows (record { count = 1; pids = [] })
      (record { count = 2; pids = volume ∷ [] }) (record { count = 2; pids = balance ∷ [] }) refl
      (omega arith) (omega arith) refl (omega arith) refl (omega arith)

-- A driver that gives one quadlet of ones.
abbrev tlv_driver : Packet → Reply Packet
tlv_driver packet =
    if leb 4 (min packet.length (length packet.tlv))
    then answer (record {
      numid = packet.numid;
      length = 4;
      tlv = (1 ∷ (1 ∷ (1 ∷ (1 ∷ [])))) ++ drop 4 packet.tlv;
    })
    else errno 22

tlv_driver-IsTlvDriver : IsTlvDriver tlv_driver
tlv_driver-IsTlvDriver asked given e =
    elim (Bool-cases (leb 4 (min asked.length (length asked.tlv)))) [
      | inr short ↦ absurd (cc (rw (short, if◌then◌else◌) at e))
      | inl fits ↦
          let same : record {
            numid = asked.numid;
            length = 4;
            tlv = (1 ∷ (1 ∷ (1 ∷ (1 ∷ [])))) ++ drop 4 asked.tlv;
          }
              ≡ given =
            cc (rw (fits, if◌then◌else◌) at e) in
          let room = leb→le 4 (min asked.length (length asked.tlv)) fits in
          rw (← same) (omega (arith, room), omega (arith, room, length-drop 4 asked.tlv))
    ]

abbrev eight : List ℕ
eight = 9 ∷ (9 ∷ (9 ∷ (9 ∷ (9 ∷ (9 ∷ (9 ∷ (9 ∷ [])))))))

read_elem_tlv-bounds_example :
    (c : Container) × (read_elem_tlv platform tlv_driver 1 eight ≡ ended (success c))
    × Filled platform 1 eight
        (record { numid = 1; length = 4; tlv = 1 ∷ (1 ∷ (1 ∷ (1 ∷ (0 ∷ (0 ∷ (0 ∷ (0 ∷ []))))))) })
        c
read_elem_tlv-bounds_example =
    read_elem_tlv-bounds platform 1 eight tlv_driver
      (record { numid = 1; length = 4; tlv = 1 ∷ (1 ∷ (1 ∷ (1 ∷ (0 ∷ (0 ∷ (0 ∷ (0 ∷ []))))))) })
      tlv_driver-IsTlvDriver (omega arith) refl

-- The labels "On" and "Off".
abbrev on_off : List (List ℕ)
on_off = (79 ∷ (110 ∷ [])) ∷ ((79 ∷ (102 ∷ (102 ∷ []))) ∷ [])

abbrev on_off_names : EnumNames
on_off_names = record {
  names = 79 ∷ (110 ∷ (0 ∷ (79 ∷ (102 ∷ (102 ∷ (0 ∷ []))))));
  names_length = 7;
  items = 2;
}

on_off-prepared : prepare_enum_names on_off ≡ some on_off_names
unfolding prepare_enum_names names_length write_names
on_off-prepared = refl

on_off-short : length (write_names on_off) < 2 ^ 32
unfolding write_names
on_off-short = omega arith

prepare_enum_names-read_example :
    (read_names on_off_names.items on_off_names.names ≡ some on_off)
    × (on_off_names.names_length ≡ length on_off_names.names)
    × (length on_off_names.names ≤ 64 * 1024)
prepare_enum_names-read_example =
    prepare_enum_names-read on_off on_off_names
      ((omega arith, (omega arith, tt)), ((omega arith, (omega arith, (omega arith, tt))), tt))
      on_off-short on_off-prepared

abbrev name_driver : ℕ → Reply (List ℕ)
name_driver i = elim (get_elem? on_off i) [ none ↦ errno 22 | some name ↦ answer name ]

parse_enum_names-Names_example : parse_enum_names platform name_driver 2 ≡ success on_off
parse_enum_names-Names_example =
    parse_enum_names-Names platform name_driver on_off (λ i name e. rw (e))

-- A driver that gives each first new element the number 7.
abbrev add_driver : Bool → ElemInfo → Reply ElemId
add_driver replace asked = answer (record volume { numid = 7 })

abbrev switch_info : ElemInfo
switch_info = record {
  id = volume;
  kind = boolean;
  access = 3;
  count = 1;
  owner = 0;
  range = record { min = 0; max = 1; step = 0 };
  enumerated = none;
}

abbrev new_entries : List ElemId
new_entries = record volume { numid = 7 } ∷ (record volume { numid = 8; index = 1 } ∷ [])

switch_added : add_elems platform add_driver balance 2 boolean switch_info [] ≡ success new_entries
unfolding add_elems add_or_replace_elems accepts prepared entries_from
switch_added = refl

words :
    (replace : Bool) (asked : ElemInfo) (first : ElemId)
    → add_driver replace asked ≡ answer first
    → (first.numid < 2 ^ 32) × (first.index < 2 ^ 32)
words replace asked first e =
    let same : record volume { numid = 7 } ≡ first = cc e in rw (← same) (omega arith, omega arith)

add_elems-entries_example :
    (asked : ElemInfo) × (first : ElemId) × (add_driver false asked ≡ answer first)
    × (asked.id ≡ balance)
    × (asked.owner ≡ 2)
    × Follow platform add_driver balance 2 first new_entries
add_elems-entries_example =
    add_elems-entries platform add_driver balance 2 boolean switch_info [] new_entries words
      switch_added

-- Events of elements that are known by a number, in three bytes.
abbrev event_image : CtlEvent ℕ → List ℕ
event_image (elem ev) = 1 ∷ (ev.mask ∷ (ev.id ∷ []))
event_image unknown = 0 ∷ (0 ∷ (0 ∷ []))

abbrev parse_event : List ℕ → CtlEvent ℕ
parse_event bs =
    if get_or bs 0 0 == 1
    then elem (record { mask = get_or bs 1 0; id = get_or bs 2 0 })
    else unknown

length-event_image : (ev : CtlEvent ℕ) → length (event_image ev) ≡ 3
length-event_image (elem ev) = refl
length-event_image unknown = refl

parse_event-image : (ev : CtlEvent ℕ) (rest : List ℕ) → parse_event (event_image ev ++ rest) ≡ ev
parse_event-image (elem ev) rest = refl
parse_event-image unknown rest = refl

abbrev event_layout : RecordLayout (CtlEvent ℕ)
event_layout = record {
  size = 3;
  image = event_image;
  parse = parse_event;
  size_pos = omega arith;
  length-image = length-event_image;
  parse-image = parse_event-image;
}

abbrev card : Card
card = record { fd = some 4; subscribers = 0; proto_ver_triplet = (2, 0, 8) }

-- A change of a value, an event of another type, and a removal, whose mask is one of all bits.
abbrev ctl_events : List (CtlEvent ℕ)
ctl_events =
    elem (record { mask = 1; id = 5 })
    ∷ (unknown ∷ (elem (record { mask = 2 ^ 32 - 1; id = 6 }) ∷ []))

dispatch_src-images_example :
    dispatch_src 8 3 parse_event platform card
      (record { io_in = true; io_err = false })
      (answer (
        length (images event_layout ctl_events ++ (1 ∷ [])),
        images event_layout ctl_events ++ (1 ∷ []),
      ))
    ≡ (elem_signals 8 ctl_events, continue)
dispatch_src-images_example =
    dispatch_src-images 8 event_layout platform card 4 true ctl_events (1 ∷ []) refl (omega arith)

dispatched : elem_signals 8 ctl_events ≡ handle_elem_event 5 1 ∷ (handle_elem_event 6 16 ∷ [])
unfolding elem_event_signal
dispatched = refl

-- One source, created of a new object.
abbrev one_source : World
one_source = record { card = record card { subscribers = 1 }; subscribed = true }

first_created :
    create_source platform (record { card = card; subscribed = false }) (answer tt) (answer tt)
    ≡ (one_source, success tt)
unfolding create_source
first_created = refl

Reachable-subscribed_example :
    (one_source.card.subscribers ≡ 1)
    × (one_source.subscribed ≡ ltb 0 1)
    × (get_subscribed one_source.card ≡ one_source.subscribed)
Reachable-subscribed_example = Reachable-subscribed platform one_source 1 (
    next (record { card = card; subscribed = false }) one_source 0 1 (fresh card refl)
      (created (record { card = card; subscribed = false }) one_source 0 (answer tt) first_created))
