-- ===== src/Seq/Event/Building.antt =====
-- Which events the functions of src/seq/event.c can build: none of them holds a real time.
use alsa_gobject.Base.{
  ℕ, ◌%◌, ◌^◌, ◌<◌, bit_and, ◌≡◌, ◌∙◌, Bool-cases, ◌⊎◌, inl, inr, if◌then◌else◌, ◌==◌, Option-cases,
  some, arith,
}
use alsa_gobject.Base.Bits.{assign_bits, bit_and-assign_bits_other}
use alsa_gobject.Seq.Uapi.{Uapi, IsUapi, Apart, Stamp, Ptr, Union, Member}
use alsa_gobject.Seq.Event.{Event, Ret, done, refused}
use alsa_gobject.Seq.Event.Types.{validate_event_type, validate_stamp_data}
use alsa_gobject.Seq.Event.DataFlag
use alsa_gobject.Seq.Event.Read.{data_flag}
use alsa_gobject.Seq.Event.Heap.{Heap, Mem, Buffer, load, alloc, pure, ◌>>=◌}
use alsa_gobject.Seq.Event.Data.{
  guarded, free_blob_data, clear_data_fields, with_length_mode, ensure_fixed_length_event,
  set_member, set_tick_time_data, set_real_time_data,
}
use alsa_gobject.Seq.Event.Blob.{
  ensure_variable_length_event, ensure_pointer_length_event, set_blob_data, set_pointer_data,
}
use alsa_gobject.Seq.Event.Attributes.{assign_byte}

module _ (u : Uapi) (law : IsUapi u) (U : Union) where
  -- The flags are a byte whose field for the mode of the time stamp is zero.
  abbrev pub IsPlain : Event U.Raw → Type 0
  IsPlain ev = (ev.flags < 2 ^ 8) × (bit_and ev.flags u.time_stamp_mask ≡ 0)

  pub assigned :
      (ev : Event U.Raw) (mask mode : ℕ)
      → mask < 2 ^ 8
      → mode < 2 ^ 8
      → bit_and mode mask ≡ mode
      → Apart mask u.time_stamp_mask
      → IsPlain ev
      → IsPlain (record ev { flags = assign_bits 8 ev.flags mask mode % 2 ^ 8 })
  assigned ev mask mode hm hv sub apart (byte, plain) = (
    omega arith,
    rw (assign_byte ev.flags mask mode byte hm hv) (
        bit_and-assign_bits_other 8 ev.flags mask mode u.time_stamp_mask byte hm hv law.stamp_fits
          sub apart
        ∙ plain),
  )

  with_length_mode-IsPlain :
      (mode : ℕ) (ev : Event U.Raw)
      → mode < 2 ^ 8
      → bit_and mode u.event_length_mask ≡ mode
      → IsPlain ev
      → IsPlain (with_length_mode u U mode ev)
  unfolding with_length_mode
  with_length_mode-IsPlain mode ev fits sub plain =
      assigned ev u.event_length_mask mode law.length_fits fits sub law.length-stamp plain

pub bind-some :
    {A B : Type 0} (m : Mem A) (f : A → Mem B) (h k : Heap) (b : B)
    → (m >>= f) h ≡ some (b, k)
    → (a : A) × (h' : Heap) × (m h ≡ some (a, h')) × (f a h' ≡ some (b, k))
bind-some m f h k b e = elim (Option-cases (m h)) [
  | inl fault ↦ absurd (cc (rw (◌>>=◌, fault) at e))
  | inr ((a, h'), ran) ↦ (a, h', ran, rw (◌>>=◌, ran) at e)
]

pub pure-some : {A : Type 0} (a b : A) (h k : Heap) → pure a h ≡ some (b, k) → a ≡ b
pure-some a b h k e = cc e

-- A setter leaves the event alone or writes it.
guarded-some :
    {Raw : Type 0} (v : Ret (Unit {0})) (ev ev' : Event Raw) (write : Mem (Event Raw)) (h k : Heap)
    (r : Ret (Unit {0}))
    → guarded v ev write h ≡ some ((r, ev'), k)
    → (ev ≡ ev') ⊎ (write h ≡ some (ev', k))
guarded-some (refused x) ev ev' write h k r e = inl (cc e)
guarded-some (done t) ev ev' write h k r e = elim (Option-cases (write h)) [
  | inl fault ↦ absurd (cc (rw (guarded, fault) at e))
  | inr ((ev1, h1), ran) ↦ inr (ran ∙ cc (rw (guarded, ran) at e))
]

module _ (u : Uapi) (law : IsUapi u) (U : Union) where
  moved : (ev ev' : Event U.Raw) → ev ≡ ev' → IsPlain u law U ev → IsPlain u law U ev'
  moved ev ev' e plain = rw (← e) plain

  clear_data_fields-IsPlain :
      (ev ev' : Event U.Raw) (h k : Heap)
      → clear_data_fields u U ev h ≡ some (ev', k)
      → IsPlain u law U ev
      → IsPlain u law U ev'
  unfolding clear_data_fields
  clear_data_fields-IsPlain ev ev' h k e plain =
      let (t, h1, freed, left) =
        bind-some (free_blob_data u U ev) (λ t. pure (record ev { content = U.zeros })) h k ev' e in
      moved (record ev { content = U.zeros }) ev'
        (pure-some (record ev { content = U.zeros }) ev' h1 k left) plain

  ensure_fixed_length_event-IsPlain :
      (ev ev' : Event U.Raw) (h k : Heap)
      → ensure_fixed_length_event u U ev h ≡ some (ev', k)
      → IsPlain u law U ev
      → IsPlain u law U ev'
  unfolding ensure_fixed_length_event
  ensure_fixed_length_event-IsPlain ev ev' h k e plain =
      let (ev1, h1, cleared, left) =
        bind-some (clear_data_fields u U ev)
          (λ ev1. pure (with_length_mode u U u.event_length_fixed ev1)) h k ev' e in
      moved (with_length_mode u U u.event_length_fixed ev1) ev'
        (pure-some (with_length_mode u U u.event_length_fixed ev1) ev' h1 k left)
        (with_length_mode-IsPlain u law U u.event_length_fixed ev1 law.fixed_fits law.fixed_masked
          (clear_data_fields-IsPlain ev ev1 h h1 cleared plain))

  -- Data of fixed length, written into the storage by `f`.
  fixed_data-IsPlain :
      (v : Ret (Unit {0})) (f : U.Raw → U.Raw) (ev ev' : Event U.Raw) (h k : Heap)
      (r : Ret (Unit {0}))
      → guarded v ev
          (ensure_fixed_length_event u U ev
            >>= (λ ev1. pure (record ev1 { content = f ev1.content })))
          h
        ≡ some ((r, ev'), k)
      → IsPlain u law U ev
      → IsPlain u law U ev'
  fixed_data-IsPlain v f ev ev' h k r e plain =
      elim (guarded-some v ev ev'
        (ensure_fixed_length_event u U ev
          >>= (λ ev1. pure (record ev1 { content = f ev1.content })))
        h k r e) [
          | inl same ↦ moved ev ev' same plain
          | inr wrote ↦
              let (ev1, h1, ran, left) =
                bind-some (ensure_fixed_length_event u U ev)
                  (λ ev1. pure (record ev1 { content = f ev1.content })) h k ev' wrote in
              moved (record ev1 { content = f ev1.content }) ev'
                (pure-some (record ev1 { content = f ev1.content }) ev' h1 k left)
                (ensure_fixed_length_event-IsPlain ev ev1 h h1 ran plain)
        ]

  pub set_member-IsPlain :
      (m : Member) (s : U.Struct m) (ev ev' : Event U.Raw) (h k : Heap) (r : Ret (Unit {0}))
      → set_member u U m ev s h ≡ some ((r, ev'), k)
      → IsPlain u law U ev
      → IsPlain u law U ev'
  unfolding set_member
  set_member-IsPlain m s ev ev' h k r e plain =
      fixed_data-IsPlain (validate_event_type ev (data_flag m)) (λ c. U.put m s c) ev ev' h k r e
        plain

  pub set_tick_time_data-IsPlain :
      (tick : ℕ) (ev ev' : Event U.Raw) (h k : Heap) (r : Ret (Unit {0}))
      → set_tick_time_data u U ev tick h ≡ some ((r, ev'), k)
      → IsPlain u law U ev
      → IsPlain u law U ev'
  unfolding set_tick_time_data
  set_tick_time_data-IsPlain tick ev ev' h k r e plain =
      fixed_data-IsPlain (validate_stamp_data u ev u.time_stamp_tick)
        (λ c. U.put_time (record { first = tick; second = (U.get_time c).second }) c) ev ev' h k r e
        plain

  pub set_real_time_data-IsPlain :
      (time : Stamp) (ev ev' : Event U.Raw) (h k : Heap) (r : Ret (Unit {0}))
      → set_real_time_data u U ev time h ≡ some ((r, ev'), k)
      → IsPlain u law U ev
      → IsPlain u law U ev'
  unfolding set_real_time_data
  set_real_time_data-IsPlain time ev ev' h k r e plain =
      fixed_data-IsPlain (validate_stamp_data u ev u.time_stamp_real) (λ c. U.put_time time c) ev
        ev' h k r e plain

  pub set_blob_data-IsPlain :
      (buf : Buffer) (n : ℕ) (ev ev' : Event U.Raw) (h k : Heap) (r : Ret (Unit {0}))
      → set_blob_data u U ev buf n h ≡ some ((r, ev'), k)
      → IsPlain u law U ev
      → IsPlain u law U ev'
  unfolding set_blob_data ensure_variable_length_event
  set_blob_data-IsPlain buf n ev ev' h k r e plain =
      elim (guarded-some (validate_event_type ev DataFlag.blob) ev ev'
        (ensure_variable_length_event u U ev buf n) h k r e) [
          | inl same ↦ moved ev ev' same plain
          | inr wrote ↦
              let (ev1, h1, cleared, rest) =
                bind-some (clear_data_fields u U ev)
                  (λ ev1. load buf n >>= (λ bs. alloc n bs >>= (λ p. pure (stored ev1 p)))) h k ev'
                  wrote in
              let (bs, h2, copied, rest') =
                bind-some (load buf n) (λ bs. alloc n bs >>= (λ p. pure (stored ev1 p))) h1 k ev'
                  rest in
              let (p, h3, given, left) =
                bind-some (alloc n bs) (λ p. pure (stored ev1 p)) h2 k ev' rest' in
              moved (stored ev1 p) ev' (pure-some (stored ev1 p) ev' h3 k left) (
                with_length_mode-IsPlain u law U u.event_length_variable
                  (record ev1 {
                    content = U.put_ext (record { len = n % 2 ^ 32; ptr = p }) ev1.content;
                  })
                  law.variable_fits law.variable_masked
                  (clear_data_fields-IsPlain ev ev1 h h1 cleared plain))
        ]
    where
      stored : Event U.Raw → Ptr → Event U.Raw
      stored ev1 p =
          with_length_mode u U u.event_length_variable
            (record ev1 { content = U.put_ext (record { len = n % 2 ^ 32; ptr = p }) ev1.content })

  pub set_pointer_data-IsPlain :
      (p : Ptr) (n : ℕ) (ev ev' : Event U.Raw) (h k : Heap) (r : Ret (Unit {0}))
      → set_pointer_data u U ev p n h ≡ some ((r, ev'), k)
      → IsPlain u law U ev
      → IsPlain u law U ev'
  unfolding set_pointer_data ensure_pointer_length_event
  set_pointer_data-IsPlain p n ev ev' h k r e plain = elim (Bool-cases (n == 0)) [
    | inl empty ↦ moved ev ev' (cc (rw (set_pointer_data, empty, if◌then◌else◌) at e)) plain
    | inr full ↦
        let v = validate_event_type ev DataFlag.pointer in
        let guarded_e = rw (set_pointer_data, full, if◌then◌else◌) at e in
        elim (guarded-some v ev ev'
          (ensure_pointer_length_event u U ev >>= (λ ev1. pure (pointed ev1))) h k r guarded_e) [
            | inl same ↦ moved ev ev' same plain
            | inr wrote ↦
                let (ev1, h1, ran, left) =
                  bind-some (ensure_pointer_length_event u U ev) (λ ev1. pure (pointed ev1)) h k ev'
                    wrote in
                let (ev2, h2, cleared, left') =
                  bind-some (clear_data_fields u U ev)
                    (λ ev2. pure (with_length_mode u U u.event_length_varusr ev2)) h h1 ev1 ran in
                moved (pointed ev1) ev' (pure-some (pointed ev1) ev' h1 k left) (
                  moved (with_length_mode u U u.event_length_varusr ev2) ev1
                    (pure-some (with_length_mode u U u.event_length_varusr ev2) ev1 h2 h1 left')
                    (with_length_mode-IsPlain u law U u.event_length_varusr ev2 law.varusr_fits
                      law.varusr_masked (clear_data_fields-IsPlain ev ev2 h h2 cleared plain)))
          ]
  ]
    where
      pointed : Event U.Raw → Event U.Raw
      pointed ev1 = record ev1 {
        content = U.put_ext (record { len = n % 2 ^ 32; ptr = p }) ev1.content;
      }
