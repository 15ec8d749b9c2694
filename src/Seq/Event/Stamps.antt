-- ===== src/Seq/Event/Stamps.antt =====
-- The time stamp of an event: the setters check the mode of the stamp, and do not set it.
use alsa_gobject.Base.{
  ℕ, ◌≡◌, ◌≢◌, sym, Bool-cases, ◌⊎◌, inl, inr, bit_and, ◌==◌, ==_iff, none, true, false, arith,
}
use alsa_gobject.Seq.Uapi.{Uapi, IsUapi, Stamp}
use alsa_gobject.Seq.Event.{
  Event, done, refused, get_tstamp_mode, validate_event_tstamp_mode, get_tick_time, set_tick_time,
  get_real_time, set_real_time,
}

pub differ : (m : ℕ) (a b : ℕ) → a ≢ b → m ≡ a → (m == b) ≡ false
differ m a b ne e = ground arith

same_test : (a b : ℕ) → a ≡ b → (a == b) ≡ true
same_test a b e = ground arith

module _ (u : Uapi) (law : IsUapi u) {Raw : Type 0} where
  -- An event in the mode of tick time takes a tick time, which is then read back, and has no real time;
  -- in every other mode the setter, like the getter, refuses and sets no error.
  get_tick_time-set_tick_time :
      (ev : Event Raw) (tick : ℕ)
      → ((get_tstamp_mode u ev ≡ u.time_stamp_tick)
          × (ev' : Event Raw) × (set_tick_time u ev tick ≡ done ev')
          × (get_tick_time u ev' ≡ done tick)
          × (get_real_time u ev' ≡ refused none))
        ⊎ ((get_tstamp_mode u ev ≢ u.time_stamp_tick)
            × (set_tick_time u ev tick ≡ refused none)
            × (get_tick_time u ev ≡ refused none))
  unfolding get_tick_time set_tick_time get_real_time validate_event_tstamp_mode get_tstamp_mode
  get_tick_time-set_tick_time ev tick =
      elim (Bool-cases (bit_and ev.flags u.time_stamp_mask == u.time_stamp_tick)) [
        | inl e ↦
            let mode = (==_iff (bit_and ev.flags u.time_stamp_mask) u.time_stamp_tick).0 e in
            inl (
              mode,
              record ev { time = record { first = tick; second = ev.time.second } },
              rw (e),
              rw (e),
              rw (
                  differ (bit_and ev.flags u.time_stamp_mask) u.time_stamp_tick u.time_stamp_real
                    law.tick-ne-real mode),
            )
        | inr e ↦ inr (
          λ mode.
              absurd
                (cc (same_test (bit_and ev.flags u.time_stamp_mask) u.time_stamp_tick mode, e)),
          rw (e),
          rw (e),
        )
      ]

  -- An event in the mode of real time takes a real time, which is then read back, and has no tick
  -- time; in every other mode the setter, like the getter, refuses and sets no error.
  get_real_time-set_real_time :
      (ev : Event Raw) (time : Stamp)
      → ((get_tstamp_mode u ev ≡ u.time_stamp_real)
          × (ev' : Event Raw) × (set_real_time u ev time ≡ done ev')
          × (get_real_time u ev' ≡ done time)
          × (get_tick_time u ev' ≡ refused none))
        ⊎ ((get_tstamp_mode u ev ≢ u.time_stamp_real)
            × (set_real_time u ev time ≡ refused none)
            × (get_real_time u ev ≡ refused none))
  unfolding get_tick_time set_real_time get_real_time validate_event_tstamp_mode get_tstamp_mode
  get_real_time-set_real_time ev time =
      elim (Bool-cases (bit_and ev.flags u.time_stamp_mask == u.time_stamp_real)) [
        | inl e ↦
            let mode = (==_iff (bit_and ev.flags u.time_stamp_mask) u.time_stamp_real).0 e in
            inl (
              mode,
              record ev { time = time },
              rw (e),
              rw (e),
              rw (
                  differ (bit_and ev.flags u.time_stamp_mask) u.time_stamp_real u.time_stamp_tick
                    (λ q. law.tick-ne-real (sym q)) mode),
            )
        | inr e ↦ inr (
          λ mode.
              absurd
                (cc (same_test (bit_and ev.flags u.time_stamp_mask) u.time_stamp_real mode, e)),
          rw (e),
          rw (e),
        )
      ]

  -- An event in the mode of tick time takes a tick time, which is then read back, and has no real time;
  -- in every other mode the setter of a tick time, like the getter, refuses and sets no error. The same
  -- holds of an event in the mode of real time and a real time.
  pub get_stamps-set_stamps :
      (ev : Event Raw) (tick : ℕ) (time : Stamp)
      → (((get_tstamp_mode u ev ≡ u.time_stamp_tick)
            × (ev' : Event Raw) × (set_tick_time u ev tick ≡ done ev')
            × (get_tick_time u ev' ≡ done tick)
            × (get_real_time u ev' ≡ refused none))
          ⊎ ((get_tstamp_mode u ev ≢ u.time_stamp_tick)
              × (set_tick_time u ev tick ≡ refused none)
              × (get_tick_time u ev ≡ refused none)))
        × (((get_tstamp_mode u ev ≡ u.time_stamp_real)
              × (ev' : Event Raw) × (set_real_time u ev time ≡ done ev')
              × (get_real_time u ev' ≡ done time)
              × (get_tick_time u ev' ≡ refused none))
            ⊎ ((get_tstamp_mode u ev ≢ u.time_stamp_real)
                × (set_real_time u ev time ≡ refused none)
                × (get_real_time u ev ≡ refused none)))
  get_stamps-set_stamps ev tick time =
      (get_tick_time-set_tick_time ev tick, get_real_time-set_real_time ev time)
