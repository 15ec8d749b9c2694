-- ===== src/Seq/Tests.antt =====
-- Runs of the sequencer's parts at concrete events.
use alsa_gobject.Base.{
  ℕ, ◌≡◌, ◌≢◌, ap, sym, ◌++◌, ◌≤◌, refl, true, false, none, some, List, [], ◌∷◌, take, length, ◌⊎◌,
  bit_and, arith,
}
use alsa_gobject.Platform.{Reply, answer, success, ended}
use alsa_gobject.Seq.Uapi.{heap, user, raw8}
use alsa_gobject.Seq.Event.{
  new, set_tag, Event, done, refused, invalid_data_type, get_length_mode, get_tstamp_mode,
  get_tick_time, set_tick_time, get_real_time, set_real_time,
}
use alsa_gobject.Seq.Event.DataFlag
use alsa_gobject.Seq.Event.Types.{
  seq_event_data_flags, validate_event_type, validate_event_type_and_length, check_length_mode,
  expected_length_mode, is_fixed_flag,
}
use alsa_gobject.Seq.Event.Read.{data_flag, get_member, get_blob_data, get_pointer_data}
use alsa_gobject.Seq.Event.Heap.{Heap, bytes, block}
use alsa_gobject.Seq.Event.Data.{set_member}
use alsa_gobject.Seq.Event.Blob.{set_blob_data}
use alsa_gobject.Seq.Event.Ownership.{Owns, blob_block, without}
use alsa_gobject.Seq.Event.Storage.{get_member-set_member}
use alsa_gobject.Seq.Event.Blobs.{
  get_blob_data-set_blob_data, set_member-set_blob_data, set_blob_data_own_block,
}
use alsa_gobject.Seq.Event.Flatten.{
  seq_event_is_deliverable, seq_event_copy_flattened, seq_event_calculate_flattened_length,
}
use alsa_gobject.Seq.Event.Stamps.{get_stamps-set_stamps}
use alsa_gobject.Seq.Event.Built.{Built, fresh, tagged, Built-set_real_time}
use alsa_gobject.Seq.EventCntr.{EventCntr, total_length, flatten_events, deserialize}
use alsa_gobject.Seq.EventCntr.Copies.{Extends, AreCopies, AreReadable}
use alsa_gobject.Seq.Schedule.Single.{schedule_event-payload}
use alsa_gobject.Seq.EventCntr.Regions.{payload}
use alsa_gobject.Seq.Schedule.{schedule_event, check_written, all_deliverable, schedule_events}
use alsa_gobject.Seq.Schedule.Count.{schedule_events-count, schedule_events_complete}
use alsa_gobject.Seq.UserClient.{UserClient, continue, dispatch_src}
use alsa_gobject.Seq.UserClient.Delivery.{dispatch_src-serialize}
use alsa_gobject.Seq.Samples.{
  linux, linux-IsUapi, Storage, blank, ext, storage, layout, image, platform, sample, note_event,
  sysex_event, sysex_bytes, no_blocks, one_block,
}

abbrev empty_cntr : EventCntr
empty_cntr = record { buf = none; length = 0; aligned = false }

readable : AreReadable linux storage (note_event ∷ (sysex_event ∷ [])) one_block
unfolding get_length_mode
readable = (([], refl), ((sysex_bytes, refl), tt))

abbrev client : UserClient
client = record { fd = some 5; client_id = 128; proto_ver_triplet = (1, 0, 2) }

dispatch_src-serialize_example :
    (bs : List ℕ) × (cntr : EventCntr) × (evs' : List (Event Storage)) × (k' : Heap)
    × (flatten_events linux storage layout (note_event ∷ (sysex_event ∷ [])) true one_block
        ≡ some bs)
    × (dispatch_src platform client
          (record { io_in = true; io_err = false })
          (answer (length bs, bs))
        ≡ (some cntr, continue))
    × (deserialize linux storage layout cntr no_blocks ≡ some (evs', k'))
    × AreCopies linux storage (note_event ∷ (sysex_event ∷ [])) one_block evs' 0 k'
    × Extends no_blocks k'
dispatch_src-serialize_example =
    dispatch_src-serialize linux storage layout platform client 5 true (omega arith) one_block
      empty_cntr note_event (sysex_event ∷ []) no_blocks refl readable

sysex_event-Owns : Owns linux storage sysex_event one_block
sysex_event-Owns mode = (sysex_bytes, refl)

get_member-set_member_example :
    ((ev' : Event Storage) × (set_member linux storage raw8 sysex_event 9 one_block
        ≡ some ((done tt, ev'), without (blob_block linux storage sysex_event) one_block))
      × (get_member linux storage raw8 ev' ≡ done 9))
    ⊎ ((bit_and (seq_event_data_flags 130) (data_flag raw8) ≡ 0)
        × (set_member linux storage raw8 sysex_event 9 one_block
            ≡ some ((refused (some invalid_data_type), sysex_event), one_block)))
get_member-set_member_example =
    get_member-set_member linux linux-IsUapi storage raw8 sysex_event 9 one_block (omega arith)
      sysex_event-Owns

takes_blob : validate_event_type sysex_event DataFlag.blob ≡ done tt
unfolding validate_event_type seq_event_data_flags
takes_blob = refl

get_blob_data-set_blob_data_example :
    (ev' : Event Storage) × (h' : Heap) × (set_blob_data linux storage sysex_event
        (bytes (1 ∷ (2 ∷ [])))
        2
        one_block
      ≡ some ((done tt, ev'), h'))
    × (get_blob_data linux storage ev' ≡ done (record { len = 2; ptr = heap 1 }))
    × (h'.cell 1 ≡ some (take 2 (1 ∷ (2 ∷ []))))
    × Owns linux storage ev' h'
    × ((b : ℕ)
        → b ≢ 1
        → h'.cell b ≡ (without (blob_block linux storage sysex_event) one_block).cell b)
get_blob_data-set_blob_data_example =
    get_blob_data-set_blob_data linux linux-IsUapi storage sysex_event (1 ∷ (2 ∷ [])) 2 one_block
      (omega arith) (omega arith) (omega arith) (omega arith) sysex_event-Owns takes_blob

-- An event of a type that takes all data.
abbrev any_event : Event Storage
any_event = sample 55 0 blank

any_takes_blob : validate_event_type any_event DataFlag.blob ≡ done tt
unfolding validate_event_type seq_event_data_flags
any_takes_blob = refl

any_takes_byte : validate_event_type any_event (data_flag raw8) ≡ done tt
unfolding validate_event_type seq_event_data_flags
any_takes_byte = refl

any_event_plain : get_length_mode linux any_event ≢ 4
unfolding get_length_mode
any_event_plain e = absurd (omega (arith, e))

set_member-set_blob_data_example :
    (ev' : Event Storage) × (h' : Heap) × (ev'' : Event Storage) × (h'' : Heap) × (set_blob_data
        linux storage any_event
        (bytes (1 ∷ (2 ∷ [])))
        2
        no_blocks
      ≡ some ((done tt, ev'), h'))
    × (set_member linux storage raw8 ev' 7 h' ≡ some ((done tt, ev''), h''))
    × ((a : ℕ) → h''.cell a ≡ none)
set_member-set_blob_data_example =
    set_member-set_blob_data linux linux-IsUapi storage any_event (1 ∷ (2 ∷ [])) 2 no_blocks raw8 7
      (omega arith) (omega arith) (omega arith) (omega arith) (λ a h. refl) any_event_plain
      any_takes_blob any_takes_byte

owns_first : blob_block linux storage sysex_event ≡ some 0
unfolding get_length_mode
owns_first = refl

set_blob_data_own_block_example :
    set_blob_data linux storage sysex_event (block 0) 3 one_block ≡ none
set_blob_data_own_block_example =
    set_blob_data_own_block linux linux-IsUapi storage sysex_event 0 3 one_block sysex_event-Owns
      owns_first takes_blob

blob_read : get_blob_data linux storage sysex_event ≡ done (record { len = 3; ptr = heap 0 })
unfolding get_blob_data validate_event_type_and_length validate_event_type check_length_mode
    expected_length_mode is_fixed_flag seq_event_data_flags get_length_mode
blob_read = refl

-- An event of the application that points to its memory and goes to a queue.
abbrev user_event : Event Storage
user_event = sample 55 8 (ext (record { len = 3; ptr = user 7 }))

pointer_read : get_pointer_data linux storage user_event ≡ done (record { len = 3; ptr = user 7 })
unfolding get_pointer_data validate_event_type_and_length validate_event_type check_length_mode
    expected_length_mode is_fixed_flag seq_event_data_flags get_length_mode
pointer_read = refl

get_stamps-set_stamps_example :
    (((get_tstamp_mode linux note_event ≡ 0)
        × (ev' : Event Storage) × (set_tick_time linux note_event 77 ≡ done ev')
        × (get_tick_time linux ev' ≡ done 77)
        × (get_real_time linux ev' ≡ refused none))
      ⊎ ((get_tstamp_mode linux note_event ≢ 0)
          × (set_tick_time linux note_event 77 ≡ refused none)
          × (get_tick_time linux note_event ≡ refused none)))
    × (((get_tstamp_mode linux note_event ≡ 1)
          × (ev' : Event Storage) × (set_real_time linux note_event
                (record { first = 1; second = 2 })
              ≡ done ev')
          × (get_real_time linux ev' ≡ done (record { first = 1; second = 2 }))
          × (get_tick_time linux ev' ≡ refused none))
        ⊎ ((get_tstamp_mode linux note_event ≢ 1)
            × (set_real_time linux note_event (record { first = 1; second = 2 }) ≡ refused none)
            × (get_real_time linux note_event ≡ refused none)))
get_stamps-set_stamps_example =
    get_stamps-set_stamps linux linux-IsUapi note_event 77 (record { first = 1; second = 2 })

-- A sequencer that takes one event without data.
abbrev takes_one : List ℕ → Reply ℕ
takes_one buf = answer 28

deliverable_both :
    all_deliverable platform linux storage layout takes_one (note_event ∷ (sysex_event ∷ [])) ≡ true
unfolding all_deliverable seq_event_is_deliverable seq_event_data_flags get_length_mode
deliverable_both = refl

-- The bytes of the two events.
abbrev two_events : List ℕ
two_events = image note_event ++ (image sysex_event ++ sysex_bytes)

flattened :
    flatten_events linux storage layout (note_event ∷ (sysex_event ∷ [])) false one_block
    ≡ some two_events
unfolding flatten_events seq_event_copy_flattened seq_event_calculate_flattened_length
    get_length_mode
flattened = refl

first_length : total_length linux storage layout (note_event ∷ []) false ≡ 28
unfolding total_length seq_event_calculate_flattened_length get_length_mode
first_length = refl

schedule_events_complete_example :
    schedule_events platform linux storage layout takes_one
      (note_event ∷ (sysex_event ∷ []))
      one_block
    ≡ ended (success (some 1))
schedule_events_complete_example =
    schedule_events_complete platform linux storage layout takes_one note_event (sysex_event ∷ [])
      one_block two_events 0 (omega arith) deliverable_both flattened (omega arith)
      (ap answer (sym first_length))

schedule_events-count_example :
    (buf : List ℕ) × (result : ℕ) × (flatten_events linux storage layout
        (note_event ∷ (sysex_event ∷ []))
        false
        one_block
      ≡ some buf)
    × (takes_one buf ≡ answer result)
    × (1 ≤ 2)
    × (result ≡ total_length linux storage layout (note_event ∷ []) false)
schedule_events-count_example =
    schedule_events-count platform linux storage layout takes_one (note_event ∷ (sysex_event ∷ []))
      one_block 1 schedule_events_complete_example

-- A new note with a tag.
abbrev built_event : Event Storage
built_event = set_tag (new storage 6) 3

built : Built linux storage built_event
built = tagged (new storage 6) 3 (fresh 6)

Built-set_real_time_example :
    (get_tstamp_mode linux built_event ≡ 0)
    × (set_real_time linux built_event (record { first = 1; second = 2 }) ≡ refused none)
Built-set_real_time_example =
    Built-set_real_time linux linux-IsUapi storage built_event (record { first = 1; second = 2 })
      refl built

sysex_deliverable : seq_event_is_deliverable linux storage sysex_event ≡ true
unfolding seq_event_is_deliverable seq_event_data_flags get_length_mode
sysex_deliverable = refl

sysex_payload : payload linux storage sysex_event one_block ≡ some sysex_bytes
unfolding get_length_mode
sysex_payload = refl

schedule_event-payload_example :
    schedule_event platform linux storage layout takes_one sysex_event one_block
    ≡ ended (
        check_written platform linux storage layout takes_one 31
          (takes_one (image sysex_event ++ sysex_bytes)))
schedule_event-payload_example =
    schedule_event-payload platform linux storage layout takes_one sysex_event one_block sysex_bytes
      (omega arith) sysex_deliverable sysex_payload
