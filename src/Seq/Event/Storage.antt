-- ===== src/Seq/Event/Storage.antt =====
-- Writing the data of an event and reading it back.
use alsa_gobject.Base.{
  ℕ, ◌⊎◌, ◌^◌, ◌<◌, bit_and, ◌≡◌, refl, ap, ==_iff, inl, inr, Option, some, arith,
}
use alsa_gobject.Base.Bits.{bit_and-assign_bits}
use alsa_gobject.Seq.Uapi.{
  Uapi, IsUapi, Union, Member, note, control, raw8, raw32, queue, addr, connect, result,
}
use alsa_gobject.Seq.Event.{
  Event, done, refused, get_length_mode, ◌>>=◌, EventError, invalid_data_type,
}
use alsa_gobject.Seq.Event.Types.{
  validate_event_type, validate_event_type_and_length, check_length_mode, expected_length_mode,
  is_fixed_flag, seq_event_data_flags,
}
use alsa_gobject.Seq.Event.Read.{data_flag, get_member}
use alsa_gobject.Seq.Event.Heap.{Heap, bytes, update}
use alsa_gobject.Seq.Event.Heap
use alsa_gobject.Seq.Event.Data.{guarded, with_length_mode, ensure_fixed_length_event, set_member}
use alsa_gobject.Seq.Event.Attributes.{assign_byte}
use alsa_gobject.Seq.Event.Ownership.{Owns, blob_block, without, clear_data_fields-without}

-- Each member is data of fixed length.
pub expected_length_mode-data_flag :
    (u : Uapi) (m : Member) → expected_length_mode u (data_flag m) ≡ some u.event_length_fixed
unfolding expected_length_mode is_fixed_flag
expected_length_mode-data_flag u note = refl
expected_length_mode-data_flag u control = refl
expected_length_mode-data_flag u raw8 = refl
expected_length_mode-data_flag u raw32 = refl
expected_length_mode-data_flag u queue = refl
expected_length_mode-data_flag u addr = refl
expected_length_mode-data_flag u connect = refl
expected_length_mode-data_flag u result = refl

pub validate_event_type-cases :
    {Raw : Type 0} (ev : Event Raw) (flag : ℕ)
    → (validate_event_type ev flag ≡ done tt)
      ⊎ ((bit_and (seq_event_data_flags ev.kind) flag ≡ 0)
          × (validate_event_type ev flag ≡ refused (some invalid_data_type)))
unfolding validate_event_type
validate_event_type-cases ev flag = ground arith

module _ (u : Uapi) (law : IsUapi u) (U : Union) where
  pub get_length_mode-with_length_mode :
      (mode : ℕ) (ev : Event U.Raw)
      → ev.flags < 2 ^ 8
      → mode < 2 ^ 8
      → bit_and mode u.event_length_mask ≡ mode
      → get_length_mode u (with_length_mode u U mode ev) ≡ mode
  unfolding get_length_mode with_length_mode
  get_length_mode-with_length_mode mode ev byte fits masked =
      rw (assign_byte ev.flags u.event_length_mask mode byte law.length_fits fits)
        (bit_and-assign_bits 8 ev.flags u.event_length_mask mode byte law.length_fits fits masked)

  -- The event that `ensure_fixed_length_event` leaves.
  abbrev pub cleared : ℕ → Event U.Raw → Event U.Raw
  cleared mode ev = with_length_mode u U mode (record ev { content = U.zeros })

  pub ensure_fixed_length_event-cleared :
      (ev : Event U.Raw) (h : Heap)
      → Owns u U ev h
      → ensure_fixed_length_event u U ev h
        ≡ some (cleared u.event_length_fixed ev, without (blob_block u U ev) h)
  unfolding ensure_fixed_length_event
  ensure_fixed_length_event-cleared ev h ok = rw (clear_data_fields-without u U ev h ok, Heap.◌>>=◌)

  -- The event that a setter of a member leaves.
  abbrev pub with_member : (m : Member) → U.Struct m → Event U.Raw → Event U.Raw
  with_member m s ev =
      let ev' = cleared u.event_length_fixed ev in record ev' { content = U.put m s ev'.content }

  pub set_member-with_member :
      (m : Member) (ev : Event U.Raw) (s : U.Struct m) (h : Heap)
      → Owns u U ev h
      → validate_event_type ev (data_flag m) ≡ done tt
      → set_member u U m ev s h
        ≡ some ((done tt, with_member m s ev), without (blob_block u U ev) h)
  unfolding set_member
  set_member-with_member m ev s h ok valid =
      rw (valid, guarded, ensure_fixed_length_event-cleared ev h ok, Heap.◌>>=◌)

  pub validate_event_type-with_length_mode :
      (mode flag : ℕ) (ev : Event U.Raw)
      → validate_event_type (with_length_mode u U mode ev) flag ≡ validate_event_type ev flag
  unfolding validate_event_type with_length_mode
  validate_event_type-with_length_mode mode flag ev = refl

  -- An event whose type takes the data, in the mode of length that the data wants, is valid.
  pub validate_event_type_and_length-done :
      (ev : Event U.Raw) (flag mode : ℕ)
      → validate_event_type ev flag ≡ done tt
      → expected_length_mode u flag ≡ some mode
      → get_length_mode u ev ≡ mode
      → validate_event_type_and_length u ev flag ≡ done tt
  unfolding validate_event_type_and_length check_length_mode
  validate_event_type_and_length-done ev flag mode valid expected e =
      rw (valid, expected, e, ◌>>=◌) (rw ((==_iff mode mode).1 refl))

  with_member_valid :
      (m : Member) (ev : Event U.Raw) (s : U.Struct m)
      → ev.flags < 2 ^ 8
      → validate_event_type ev (data_flag m) ≡ done tt
      → validate_event_type_and_length u (with_member m s ev) (data_flag m) ≡ done tt
  unfolding with_length_mode validate_event_type get_length_mode
  with_member_valid m ev s byte valid =
      validate_event_type_and_length-done (with_member m s ev) (data_flag m) u.event_length_fixed
        valid (expected_length_mode-data_flag u m)
        (get_length_mode-with_length_mode u.event_length_fixed (record ev { content = U.zeros })
          byte law.fixed_fits law.fixed_masked)

  set_member_refused :
      (m : Member) (ev : Event U.Raw) (s : U.Struct m) (h : Heap) {e : Option EventError}
      → validate_event_type ev (data_flag m) ≡ refused e
      → set_member u U m ev s h ≡ some ((refused e, ev), h)
  unfolding set_member
  set_member_refused m ev s h invalid = rw (invalid, guarded)

  get_member-with_member :
      (m : Member) (ev : Event U.Raw) (s : U.Struct m)
      → ev.flags < 2 ^ 8
      → validate_event_type ev (data_flag m) ≡ done tt
      → get_member u U m (with_member m s ev) ≡ done s
  unfolding get_member
  get_member-with_member m ev s byte valid =
      rw (with_member_valid m ev s byte valid, ◌>>=◌) (ap done (U.get-put m s _))

  -- Of the eight members of the data that are copied whole (note, control, raw8, raw32, queue, address,
  -- connection and result; the setters of a time are not meant), on every event that owns its blob: if its
  -- type takes the data of the member, the setter succeeds, frees the blob that the event owned and nothing
  -- else of the heap, and the getter then gives the same data; otherwise the setter reports the type and
  -- leaves the event and the heap alone.
  pub get_member-set_member :
      (m : Member) (ev : Event U.Raw) (s : U.Struct m) (h : Heap)
      → ev.flags < 2 ^ 8
      → Owns u U ev h
      → ((ev' : Event U.Raw) × (set_member u U m ev s h
            ≡ some ((done tt, ev'), without (blob_block u U ev) h))
          × (get_member u U m ev' ≡ done s))
        ⊎ ((bit_and (seq_event_data_flags ev.kind) (data_flag m) ≡ 0)
            × (set_member u U m ev s h ≡ some ((refused (some invalid_data_type), ev), h)))
  get_member-set_member m ev s h byte ok = elim (validate_event_type-cases ev (data_flag m)) [
    | inl valid ↦ inl (
      with_member m s ev,
      set_member-with_member m ev s h ok valid,
      get_member-with_member m ev s byte valid,
    )
    | inr (zero_flags, invalid) ↦ inr (zero_flags, set_member_refused m ev s h invalid)
  ]
