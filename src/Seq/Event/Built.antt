-- ===== src/Seq/Event/Built.antt =====
-- The events that an application can build, from a new one by any sequence of setters and copies.
use alsa_gobject.Base.{
  ℕ, ◌^◌, ◌<◌, bit_and, ◌≡◌, ap, sym, ◌∙◌, none, some, List, arith, inl, inr, Bool-cases,
  if◌then◌else◌, ◌==◌,
}
use alsa_gobject.Base.Bits.{bit_and-zero}
use alsa_gobject.Seq.Uapi.{Uapi, IsUapi, Stamp, Ptr, Union, Member}
use alsa_gobject.Seq.Event.{
  Addr, Event, Ret, done, refused, new, set_tag, set_queue_id, set_source, set_destination,
  set_time_mode, set_priority_mode, set_tick_time, set_real_time, get_tstamp_mode,
  validate_event_tstamp_mode,
}
use alsa_gobject.Seq.Event
use alsa_gobject.Seq.Event.Heap.{Heap, Buffer, ◌>>=◌, pure, or_fault, first_bytes, alloc}
use alsa_gobject.Seq.Event.Flatten.{is_variable, seq_event_copy}
use alsa_gobject.Seq.Event.Data.{set_member, set_tick_time_data, set_real_time_data}
use alsa_gobject.Seq.Event.Blob.{set_blob_data, set_pointer_data}
use alsa_gobject.Seq.Event.Stamps.{differ}
use alsa_gobject.Seq.Event.Building.{
  bind-some, pure-some, IsPlain, assigned, set_member-IsPlain, set_tick_time_data-IsPlain,
  set_real_time_data-IsPlain, set_blob_data-IsPlain, set_pointer_data-IsPlain,
}

-- The setters of data and the boxed copy run over any heap; what the setters return does not matter. The
-- modes are values of their fields. An event that the deserializer reads is not among those built.
pub data Built (u : Uapi) (U : Union) : Event U.Raw → Type 0 where
  fresh : (event_type : ℕ) → Built u U (new U event_type)
  tagged : (ev : Event U.Raw) (tag : ℕ) → Built u U ev → Built u U (set_tag ev tag)
  queued : (ev : Event U.Raw) (id : ℕ) → Built u U ev → Built u U (set_queue_id ev id)
  sourced : (ev : Event U.Raw) (addr : Addr) → Built u U ev → Built u U (set_source ev addr)
  addressed : (ev : Event U.Raw) (addr : Addr) → Built u U ev → Built u U (set_destination ev addr)
  timed :
      (ev : Event U.Raw) (mode : ℕ)
      → mode < 2 ^ 8
      → bit_and mode u.time_mode_mask ≡ mode
      → Built u U ev
      → Built u U (set_time_mode u ev mode)
  prioritized :
      (ev : Event U.Raw) (mode : ℕ)
      → mode < 2 ^ 8
      → bit_and mode u.priority_mask ≡ mode
      → Built u U ev
      → Built u U (set_priority_mode u ev mode)
  ticked :
      (ev ev' : Event U.Raw) (tick : ℕ)
      → Built u U ev
      → set_tick_time u ev tick ≡ done ev'
      → Built u U ev'
  clocked :
      (ev ev' : Event U.Raw) (time : Stamp)
      → Built u U ev
      → set_real_time u ev time ≡ done ev'
      → Built u U ev'
  filled :
      (ev ev' : Event U.Raw) (m : Member) (s : U.Struct m) (h k : Heap) (r : Ret (Unit {0}))
      → Built u U ev
      → set_member u U m ev s h ≡ some ((r, ev'), k)
      → Built u U ev'
  tick_filled :
      (ev ev' : Event U.Raw) (tick : ℕ) (h k : Heap) (r : Ret (Unit {0}))
      → Built u U ev
      → set_tick_time_data u U ev tick h ≡ some ((r, ev'), k)
      → Built u U ev'
  real_filled :
      (ev ev' : Event U.Raw) (time : Stamp) (h k : Heap) (r : Ret (Unit {0}))
      → Built u U ev
      → set_real_time_data u U ev time h ≡ some ((r, ev'), k)
      → Built u U ev'
  blob_filled :
      (ev ev' : Event U.Raw) (buf : Buffer) (n : ℕ) (h k : Heap) (r : Ret (Unit {0}))
      → Built u U ev
      → set_blob_data u U ev buf n h ≡ some ((r, ev'), k)
      → Built u U ev'
  pointer_filled :
      (ev ev' : Event U.Raw) (p : Ptr) (n : ℕ) (h k : Heap) (r : Ret (Unit {0}))
      → Built u U ev
      → set_pointer_data u U ev p n h ≡ some ((r, ev'), k)
      → Built u U ev'
  copied :
      (ev ev' : Event U.Raw) (trail : List ℕ) (h k : Heap)
      → Built u U ev
      → seq_event_copy u U ev trail h ≡ some (ev', k)
      → Built u U ev'

module _ (u : Uapi) (law : IsUapi u) (U : Union) where
  set_tick_time_flags :
      (ev ev' : Event U.Raw) (tick : ℕ) → set_tick_time u ev tick ≡ done ev' → ev'.flags ≡ ev.flags
  unfolding set_tick_time validate_event_tstamp_mode
  set_tick_time_flags ev ev' tick e =
      elim (Bool-cases (bit_and ev.flags u.time_stamp_mask == u.time_stamp_tick)) [
        | inl mode ↦
            let made : done (record ev { time = record { first = tick; second = ev.time.second } })
                ≡ done ev' =
              rw (mode, Event.◌>>=◌, if◌then◌else◌) at e in
            let same : record ev { time = record { first = tick; second = ev.time.second } } ≡ ev' =
              cc made in
            ap (λ (t : Event U.Raw). t.flags) (sym same)
        | inr other ↦ absurd (cc (rw (other, Event.◌>>=◌, if◌then◌else◌) at e))
      ]

  set_real_time_flags :
      (ev ev' : Event U.Raw) (time : Stamp)
      → set_real_time u ev time ≡ done ev'
      → ev'.flags ≡ ev.flags
  unfolding set_real_time validate_event_tstamp_mode
  set_real_time_flags ev ev' time e =
      elim (Bool-cases (bit_and ev.flags u.time_stamp_mask == u.time_stamp_real)) [
        | inl mode ↦
            let made : done (record ev { time = time }) ≡ done ev' =
              rw (mode, Event.◌>>=◌, if◌then◌else◌) at e in
            let same : record ev { time = time } ≡ ev' = cc made in
            ap (λ (t : Event U.Raw). t.flags) (sym same)
        | inr other ↦ absurd (cc (rw (other, Event.◌>>=◌, if◌then◌else◌) at e))
      ]

  -- An event with other members but the same flags.
  same_flags :
      (ev ev' : Event U.Raw) → ev'.flags ≡ ev.flags → IsPlain u law U ev → IsPlain u law U ev'
  same_flags ev ev' e (byte, plain) = (rw (e) byte, rw (e) plain)

  seq_event_copy_flags :
      (ev ev' : Event U.Raw) (trail : List ℕ) (h k : Heap)
      → seq_event_copy u U ev trail h ≡ some (ev', k)
      → ev'.flags ≡ ev.flags
  unfolding seq_event_copy
  seq_event_copy_flags ev ev' trail h k e = elim (Bool-cases (is_variable u U ev)) [
    | inr fixed ↦
        ap (λ (t : Event U.Raw). t.flags)
          (sym (pure-some ev ev' h k (rw (seq_event_copy, fixed, if◌then◌else◌) at e)))
    | inl v ↦
        let len = (U.get_ext ev.content).len in
        let moved : Ptr → Event U.Raw =
          λ dst. record ev { content = U.put_ext (record { len = len; ptr = dst }) ev.content } in
        let (bs, h1, found, rest) =
          bind-some (or_fault (first_bytes len trail))
            (λ bs. alloc len bs >>= (λ dst. pure (moved dst))) h k ev'
            (rw (seq_event_copy, v, if◌then◌else◌) at e) in
        let (dst, h2, made, left) =
          bind-some (alloc len bs) (λ dst. pure (moved dst)) h1 k ev' rest in
        ap (λ (t : Event U.Raw). t.flags) (sym (pure-some (moved dst) ev' h2 k left))
  ]

  Built-IsPlain : (ev : Event U.Raw) → Built u U ev → IsPlain u law U ev
  unfolding new set_tag set_queue_id set_source set_destination set_time_mode set_priority_mode
  Built-IsPlain _ (fresh event_type) = (omega arith, bit_and-zero u.time_stamp_mask)
  Built-IsPlain _ (tagged ev tag b) = Built-IsPlain ev b
  Built-IsPlain _ (queued ev id b) = Built-IsPlain ev b
  Built-IsPlain _ (sourced ev addr b) = Built-IsPlain ev b
  Built-IsPlain _ (addressed ev addr b) = Built-IsPlain ev b
  Built-IsPlain _ (timed ev mode fits sub b) =
      assigned u law U ev u.time_mode_mask mode law.mode_fits fits sub law.mode-stamp
        (Built-IsPlain ev b)
  Built-IsPlain _ (prioritized ev mode fits sub b) =
      assigned u law U ev u.priority_mask mode law.priority_fits fits sub law.priority-stamp
        (Built-IsPlain ev b)
  Built-IsPlain _ (ticked ev ev' tick b e) =
      same_flags ev ev' (set_tick_time_flags ev ev' tick e) (Built-IsPlain ev b)
  Built-IsPlain _ (clocked ev ev' time b e) =
      same_flags ev ev' (set_real_time_flags ev ev' time e) (Built-IsPlain ev b)
  Built-IsPlain _ (filled ev ev' m s h k r b e) =
      set_member-IsPlain u law U m s ev ev' h k r e (Built-IsPlain ev b)
  Built-IsPlain _ (tick_filled ev ev' tick h k r b e) =
      set_tick_time_data-IsPlain u law U tick ev ev' h k r e (Built-IsPlain ev b)
  Built-IsPlain _ (real_filled ev ev' time h k r b e) =
      set_real_time_data-IsPlain u law U time ev ev' h k r e (Built-IsPlain ev b)
  Built-IsPlain _ (blob_filled ev ev' buf n h k r b e) =
      set_blob_data-IsPlain u law U buf n ev ev' h k r e (Built-IsPlain ev b)
  Built-IsPlain _ (pointer_filled ev ev' p n h k r b e) =
      set_pointer_data-IsPlain u law U p n ev ev' h k r e (Built-IsPlain ev b)
  Built-IsPlain _ (copied ev ev' trail h k b e) =
      same_flags ev ev' (seq_event_copy_flags ev ev' trail h k e) (Built-IsPlain ev b)

  -- Where zero is the mode of tick time, as it is on Linux, no sequence of the setters and of boxed copies
  -- makes a new event one that takes a real time: every event built so stays in the mode of tick time, and
  -- the setter of a real time refuses it, without an error.
  pub Built-set_real_time :
      (ev : Event U.Raw) (time : Stamp)
      → u.time_stamp_tick ≡ 0
      → Built u U ev
      → (get_tstamp_mode u ev ≡ u.time_stamp_tick) × (set_real_time u ev time ≡ refused none)
  unfolding get_tstamp_mode set_real_time validate_event_tstamp_mode
  Built-set_real_time ev time zero_tick b =
      let (byte, plain) = Built-IsPlain ev b in
      (
        plain ∙ sym zero_tick,
        rw (
            differ (bit_and ev.flags u.time_stamp_mask) u.time_stamp_tick u.time_stamp_real
              law.tick-ne-real (plain ∙ sym zero_tick)),
      )
