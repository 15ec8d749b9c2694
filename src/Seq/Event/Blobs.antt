-- ===== src/Seq/Event/Blobs.antt =====
-- Writing data of variable length: the event owns a copy of it, and the heap leaks nothing.
use alsa_gobject.Base.{
  ℕ, ◌+◌, ◌%◌, ◌^◌, ◌<◌, ◌≤◌, ◌≡◌, refl, ◌≢◌, ◌∙◌, ap, inl, inr, Option, none, some, List, take,
  length, le→leb, Bool-cases, false, ◌==◌, ==_iff, arith,
}
use alsa_gobject.Seq.Uapi.{Uapi, IsUapi, Union, heap, Member}
use alsa_gobject.Seq.Event.{Event, done, get_length_mode, ◌>>=◌}
use alsa_gobject.Seq.Event.DataFlag
use alsa_gobject.Seq.Event.Types.{validate_event_type, expected_length_mode, is_fixed_flag}
use alsa_gobject.Seq.Event.Read.{data_flag, get_blob_data}
use alsa_gobject.Seq.Event.Heap.{
  Heap, update_self, bytes, block, update, first_bytes, load, IsFresh,
}
use alsa_gobject.Seq.Event.Heap
use alsa_gobject.Seq.Event.Data.{guarded, with_length_mode, set_member}
use alsa_gobject.Seq.Event.Blob.{set_blob_data, ensure_variable_length_event}
use alsa_gobject.Seq.Event.Ownership.{
  Owns, blob_block, without, IsFreeable, clear_data_fields-without,
}
use alsa_gobject.Seq.Event.Storage.{
  validate_event_type_and_length-done, set_member-with_member, with_member,
  get_length_mode-with_length_mode, validate_event_type-with_length_mode,
}

pub expected_length_mode-blob :
    (u : Uapi) → expected_length_mode u DataFlag.blob ≡ some u.event_length_variable
unfolding expected_length_mode is_fixed_flag
expected_length_mode-blob u = refl

-- The heap with a block at the next address.
abbrev pub with_block : List ℕ → Heap → Heap
with_block bs h = record { cell = update h.cell h.next (some bs); next = h.next + 1 }

next-without : (b : Option ℕ) (h : Heap) → (without b h).next ≡ h.next
next-without none h = refl
next-without (some a) h = refl

update_ne : (f : ℕ → Option (List ℕ)) (a b : ℕ) (v : Option (List ℕ)) → b ≢ a → update f a v b ≡ f b
update_ne f a b v ne = ground arith

positive-ne-zero : (n : ℕ) → 0 < n → (n == 0) ≡ false
positive-ne-zero n pos = ground arith

first_bytes-take : (n : ℕ) (bs : List ℕ) → n ≤ length bs → first_bytes n bs ≡ some (take n bs)
first_bytes-take n bs h = rw (le→leb n (length bs) h)

module _ (u : Uapi) (law : IsUapi u) (U : Union) where
  -- The event that `set_blob_data` leaves, its blob at the address `a`.
  abbrev pub with_blob : ℕ → ℕ → Event U.Raw → Event U.Raw
  with_blob a n ev =
      with_length_mode u U u.event_length_variable
        (record ev { content = U.put_ext (record { len = n % 2 ^ 32; ptr = heap a }) U.zeros })

  set_blob_data-with_blob :
      (ev : Event U.Raw) (bs : List ℕ) (n : ℕ) (h : Heap)
      → Owns u U ev h
      → validate_event_type ev DataFlag.blob ≡ done tt
      → 0 < n
      → n ≤ length bs
      → set_blob_data u U ev (bytes bs) n h
        ≡ some (
          (done tt, with_blob (without (blob_block u U ev) h).next n ev),
          with_block (take n bs) (without (blob_block u U ev) h),
        )
  unfolding set_blob_data ensure_variable_length_event
  set_blob_data-with_blob ev bs n h ok valid pos enough = rw (
    valid,
    guarded,
    clear_data_fields-without u U ev h ok,
    Heap.◌>>=◌,
    first_bytes-take n bs enough,
    positive-ne-zero n pos,
  )

  get_length_mode-with_blob :
      (a n : ℕ) (ev : Event U.Raw)
      → ev.flags < 2 ^ 8
      → get_length_mode u (with_blob a n ev) ≡ u.event_length_variable
  get_length_mode-with_blob a n ev byte =
      get_length_mode-with_length_mode u law U u.event_length_variable
        (record ev { content = U.put_ext (record { len = n % 2 ^ 32; ptr = heap a }) U.zeros }) byte
        law.variable_fits law.variable_masked

  get_ext-with_blob :
      (a n : ℕ) (ev : Event U.Raw)
      → n < 2 ^ 32
      → U.get_ext ((with_blob a n ev).content) ≡ record { len = n; ptr = heap a }
  unfolding with_length_mode
  get_ext-with_blob a n ev small =
      U.get_ext-put_ext _ _ ∙ ap (λ (k : ℕ). record { len = k; ptr = heap a }) (omega arith)

  get_blob_data-with_blob :
      (a n : ℕ) (ev : Event U.Raw)
      → ev.flags < 2 ^ 8
      → n < 2 ^ 32
      → validate_event_type ev DataFlag.blob ≡ done tt
      → get_blob_data u U (with_blob a n ev) ≡ done (record { len = n; ptr = heap a })
  unfolding get_blob_data
  get_blob_data-with_blob a n ev byte small valid =
      rw
        (
          validate_event_type_and_length-done u law U (with_blob a n ev) DataFlag.blob
              u.event_length_variable
              (validate_event_type-with_length_mode u law U u.event_length_variable DataFlag.blob
                  (record ev {
                    content = U.put_ext (record { len = n % 2 ^ 32; ptr = heap a }) U.zeros;
                  })
                ∙ (unfold validate_event_type in valid))
              (expected_length_mode-blob u) (get_length_mode-with_blob a n ev byte),
          ◌>>=◌,
        )
        (ap done (get_ext-with_blob a n ev small))

  -- With bytes of the caller that are long enough and a length that is not zero and has 32 bits, on an event that owns its
  -- blob and whose type takes a blob: the setter succeeds, the getter gives the length and a block
  -- that was not in use and holds a copy of the bytes, the event owns that block, and the rest of the
  -- heap has lost the blob that the event owned before and nothing else.
  pub get_blob_data-set_blob_data :
      (ev : Event U.Raw) (bs : List ℕ) (n : ℕ) (h : Heap)
      → ev.flags < 2 ^ 8
      → n < 2 ^ 32
      → 0 < n
      → n ≤ length bs
      → Owns u U ev h
      → validate_event_type ev DataFlag.blob ≡ done tt
      → (ev' : Event U.Raw) × (h' : Heap) × (set_blob_data u U ev (bytes bs) n h
          ≡ some ((done tt, ev'), h'))
        × (get_blob_data u U ev' ≡ done (record { len = n; ptr = heap h.next }))
        × (h'.cell h.next ≡ some (take n bs))
        × Owns u U ev' h'
        × ((b : ℕ) → b ≢ h.next → h'.cell b ≡ (without (blob_block u U ev) h).cell b)
  get_blob_data-set_blob_data ev bs n h byte small pos enough ok valid = (
    with_blob h.next n ev,
    with_block (take n bs) h1,
    set_blob_data-with_blob ev bs n h ok valid pos enough
        ∙ ap (λ (a : ℕ). some ((done tt, with_blob a n ev), with_block (take n bs) h1)) e,
    get_blob_data-with_blob h.next n ev byte small valid,
    stored,
    (λ mode. rw (get_ext-with_blob h.next n ev small, IsFreeable) (take n bs, stored)),
    (λ b ne. update_ne h1.cell h1.next b (some (take n bs)) (λ p. ne (p ∙ e))),
  )
    where
      h1 : Heap
      h1 = without (blob_block u U ev) h

      e : h1.next ≡ h.next
      e = next-without (blob_block u U ev) h

      stored : (with_block (take n bs) h1).cell h.next ≡ some (take n bs)
      stored = rw e (update_self h1.cell h.next (some (take n bs)))

  -- A blob, not empty, that is replaced by data of fixed length leaves no trace in the heap: from an event that
  -- owns no block, over a heap whose next address is free, setting a blob and then a member succeeds,
  -- and every block of the heap is as it was before.
  pub set_member-set_blob_data :
      (ev : Event U.Raw) (bs : List ℕ) (n : ℕ) (h : Heap) (m : Member) (s : U.Struct m)
      → ev.flags < 2 ^ 8
      → n < 2 ^ 32
      → 0 < n
      → n ≤ length bs
      → IsFresh h
      → get_length_mode u ev ≢ u.event_length_variable
      → validate_event_type ev DataFlag.blob ≡ done tt
      → validate_event_type ev (data_flag m) ≡ done tt
      → (ev' : Event U.Raw) × (h' : Heap) × (ev'' : Event U.Raw) × (h'' : Heap) × (set_blob_data u U
            ev
            (bytes bs)
            n
            h
          ≡ some ((done tt, ev'), h'))
        × (set_member u U m ev' s h' ≡ some ((done tt, ev''), h''))
        × ((a : ℕ) → h''.cell a ≡ h.cell a)
  set_member-set_blob_data ev bs n h m s byte small pos enough fresh plain valid_blob valid = (
    ev1,
    with_block (take n bs) h,
    with_member u law U m s ev1,
    without (some h.next) (with_block (take n bs) h),
    set_blob_data-with_blob ev bs n h (λ e. absurd (plain e)) valid_blob pos enough
        ∙ ap (λ (k : Heap). some ((done tt, with_blob k.next n ev), with_block (take n bs) k))
            no_block,
    set_member-with_member u law U m ev1 s (with_block (take n bs) h) owned valid1
        ∙ ap
            (λ (o : Option ℕ).
              some ((done tt, with_member u law U m s ev1), without o (with_block (take n bs) h)))
            block,
    (λ a. ground (arith, fresh a)),
  )
    where
      ev1 : Event U.Raw
      ev1 = with_blob h.next n ev

      no_block : without (blob_block u U ev) h ≡ h
      no_block = elim (Bool-cases (get_length_mode u ev == u.event_length_variable)) [
        | inl e ↦ absurd (plain ((==_iff _ _).0 e))
        | inr e ↦ rw e
      ]

      block : blob_block u U ev1 ≡ some h.next
      block =
          rw (get_length_mode-with_blob h.next n ev byte, get_ext-with_blob h.next n ev small)
            (rw ((==_iff u.event_length_variable u.event_length_variable).1 refl))

      owned : Owns u U ev1 (with_block (take n bs) h)
      owned mode =
          rw (get_ext-with_blob h.next n ev small, IsFreeable)
            (take n bs, update_self h.cell h.next (some (take n bs)))

      valid1 : validate_event_type ev1 (data_flag m) ≡ done tt
      valid1 =
          validate_event_type-with_length_mode u law U u.event_length_variable (data_flag m)
            (record ev {
              content = U.put_ext (record { len = n % 2 ^ 32; ptr = heap h.next }) U.zeros;
            })
          ∙ (unfold validate_event_type in valid)

  -- On an event that owns its blob, the block `a`, and whose type takes a blob, to set a blob from
  -- the block `a` itself is undefined: the setter frees the block before it copies it.
  pub set_blob_data_own_block :
      (ev : Event U.Raw) (a n : ℕ) (h : Heap)
      → Owns u U ev h
      → blob_block u U ev ≡ some a
      → validate_event_type ev DataFlag.blob ≡ done tt
      → set_blob_data u U ev (block a) n h ≡ none
  unfolding set_blob_data ensure_variable_length_event
  set_blob_data_own_block ev a n h ok owns valid =
      rw (valid, guarded, clear_data_fields-without u U ev h ok, Heap.◌>>=◌, owns)
        (rw (update_self h.cell a none))
