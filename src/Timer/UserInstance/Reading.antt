-- ===== src/Timer/UserInstance/Reading.antt =====
-- The events that a dispatch of the source of an instance hands on.
use alsa_gobject.Base.{
  ℕ, zero, suc, ◌+◌, ◌-◌, ◌<◌, ◌≤◌, ◌≡◌, refl, ap, Bool, false, if◌then◌else◌, leb, some, List, [],
  ◌∷◌, ◌++◌, map, length, length-append, arith,
}
use alsa_gobject.Records.{RecordLayout, images, split_record}
use alsa_gobject.Platform.{Platform, answer}
use alsa_gobject.Timer.UserInstance.{
  EventType, tick_time, real_time, Signal, handle_tick_time_event, handle_real_time_event, continue,
  dispatch_tick_time_events, dispatch_real_time_events, dispatch_src,
}

module _ {Tick Real : Type 0} (T : RecordLayout Tick) (R : RecordLayout Real) where
  dispatch_tick_time_events-images :
      (fuel : ℕ) (events : List Tick) (rest : List ℕ) (len : ℕ)
      → len ≤ fuel
      → length (images T events) ≤ len
      → len < length (images T events) + T.size
      → dispatch_tick_time_events T.size T.parse R.size R.parse fuel len (images T events ++ rest)
        ≡ map handle_tick_time_event events
  unfolding dispatch_tick_time_events
  dispatch_tick_time_events-images zero [] rest len few enough over = refl
  dispatch_tick_time_events-images zero (ev ∷ events) rest len few enough over =
      let (fits, here, next, total) = split_record T ev events rest len enough in
      absurd (omega (arith, T.size_pos, total))
  dispatch_tick_time_events-images (suc fuel) [] rest len few enough over =
      rw (short, if◌then◌else◌)
    where
      short : leb T.size len ≡ false
      short = ground arith
  dispatch_tick_time_events-images (suc fuel) (ev ∷ events) rest len few enough over =
      let (fits, here, next, total) = split_record T ev events rest len enough in
      rw (fits, here, next, if◌then◌else◌)
        (ap (λ t. handle_tick_time_event ev ∷ t)
          (dispatch_tick_time_events-images fuel events rest (len - T.size)
            (omega (arith, T.size_pos)) (omega (arith, total)) (omega (arith, total, over))))

  dispatch_real_time_events-images :
      (fuel : ℕ) (events : List Real) (rest : List ℕ) (len : ℕ)
      → len ≤ fuel
      → length (images R events) ≤ len
      → len < length (images R events) + R.size
      → dispatch_real_time_events T.size T.parse R.size R.parse fuel len (images R events ++ rest)
        ≡ map handle_real_time_event events
  unfolding dispatch_real_time_events
  dispatch_real_time_events-images zero [] rest len few enough over = refl
  dispatch_real_time_events-images zero (ev ∷ events) rest len few enough over =
      let (fits, here, next, total) = split_record R ev events rest len enough in
      absurd (omega (arith, R.size_pos, total))
  dispatch_real_time_events-images (suc fuel) [] rest len few enough over =
      rw (short, if◌then◌else◌)
    where
      short : leb R.size len ≡ false
      short = ground arith
  dispatch_real_time_events-images (suc fuel) (ev ∷ events) rest len few enough over =
      let (fits, here, next, total) = split_record R ev events rest len enough in
      rw (fits, here, next, if◌then◌else◌)
        (ap (λ t. handle_real_time_event ev ∷ t)
          (dispatch_real_time_events-images fuel events rest (len - R.size)
            (omega (arith, R.size_pos)) (omega (arith, total)) (omega (arith, total, over))))

  -- The signals of some events, by the mode.
  abbrev pub Events : EventType → Type 0
  Events tick_time = List Tick
  Events real_time = List Real

  abbrev pub event_bytes : (t : EventType) → Events t → List ℕ
  event_bytes tick_time events = images T events
  event_bytes real_time events = images R events

  abbrev pub event_size : EventType → ℕ
  event_size tick_time = T.size
  event_size real_time = R.size

  abbrev pub signals : (t : EventType) → Events t → List (Signal Tick Real)
  signals tick_time events = map handle_tick_time_event events
  signals real_time events = map handle_real_time_event events

  -- A dispatch of the source of an open instance without an error condition, whose `read` gives
  -- the bytes of some events of the mode that was chosen, and perhaps a part of one more, emits
  -- one signal of that mode for each of the events, in their order, and keeps the source.
  pub dispatch_src-events :
      (p : Platform) (t : EventType) (fd : ℕ) (version : ℕ × ℕ × ℕ) (io_in : Bool)
      (events : Events t) (rest : List ℕ)
      → length rest < event_size t
      → dispatch_src T.size T.parse R.size R.parse p
          (record { fd = some fd; event_type = t; proto_ver_triplet = version })
          (record { io_in = io_in; io_err = false })
          (answer (length (event_bytes t events ++ rest), event_bytes t events ++ rest))
        ≡ (signals t events, continue)
  unfolding dispatch_src
  dispatch_src-events p tick_time fd version io_in events rest part =
      let n = length (images T events ++ rest) in
      let total = length-append (images T events) rest in
      rw (
        dispatch_tick_time_events-images n events rest n (omega arith) (omega (arith, total))
          (omega (arith, total)))
  dispatch_src-events p real_time fd version io_in events rest part =
      let n = length (images R events ++ rest) in
      let total = length-append (images R events) rest in
      rw (
        dispatch_real_time_events-images n events rest n (omega arith) (omega (arith, total))
          (omega (arith, total)))
