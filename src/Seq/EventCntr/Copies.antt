-- ===== src/Seq/EventCntr/Copies.antt =====
-- What the copy of a flattened event is, and that it stays so while the heap grows.
use alsa_gobject.Base.{
  ℕ, zero, suc, ◌+◌, ◌≤◌, ◌<◌, ◌≡◌, refl, ap, ◌∙◌, ◌⊎◌, true, Bool-cases, inl, inr, if◌then◌else◌,
  le→leb, some, List, [], ◌∷◌, ◌++◌, length, take_all, arith,
}
use alsa_gobject.Seq.Uapi.{Uapi, Union, Ptr, heap, null}
use alsa_gobject.Seq.Event.{Event, get_length_mode}
use alsa_gobject.Seq.Event.Heap.{Heap, update, update_self, alloc, or_fault, ◌>>=◌}
use alsa_gobject.Seq.Event.Flatten.{is_variable, load_ptr, seq_event_copy}
use alsa_gobject.Seq.EventCntr.Regions.{payload, first_bytes-append, payload-length}

-- A later heap: no block that was there has changed.
abbrev pub Extends : Heap → Heap → Type 0
Extends h k = (h.next ≤ k.next) × ((a : ℕ) → a < h.next → k.cell a ≡ h.cell a)

pub Extends-trans : (h k l : Heap) → Extends h k → Extends k l → Extends h l
Extends-trans h k l (n, p) (m, q) = (omega arith, λ a lt. q a (omega arith) ∙ p a lt)

-- The blocks from `lo` to `hi`, of which there is none or one, are what a pointer of a copy points to.
abbrev pub IsPlaced : Ptr → ℕ → ℕ → Type 0
IsPlaced p lo hi = ((p ≡ null) × (hi ≡ lo)) ⊎ ((p ≡ heap lo) × (hi ≡ lo + 1))

-- An allocated copy can be read, and goes on to be; it is in the next block.
alloc-load_ptr :
    (n : ℕ) (bs : List ℕ) (k : Heap)
    → length bs ≡ n
    → (p : Ptr) × (k' : Heap) × (alloc n bs k ≡ some (p, k'))
      × IsPlaced p k.next k'.next
      × ((j : Heap) → Extends k' j → load_ptr p n j ≡ some bs)
      × Extends k k'
alloc-load_ptr zero [] k e =
    (null, k, refl, inl (refl, refl), (λ j x. refl), (omega arith, λ a lt. refl))
alloc-load_ptr zero (b ∷ bs) k e = absurd (omega arith)
alloc-load_ptr (suc n) bs k e = (
  heap k.next,
  record { cell = update k.cell k.next (some bs); next = k.next + 1 },
  ground arith,
  inr (refl, refl),
  (λ j x.
      rw (x.1 k.next (omega arith) ∙ update_self k.cell k.next (some bs), load_ptr)
        (rw (le→leb (suc n) (length bs) (omega arith))
          (ap some (take_all bs (suc n) (omega arith))))),
  (omega arith, λ a lt. ground arith),
)

module _ (u : Uapi) (U : Union) where
  -- The event with another pointer, if it has a blob.
  abbrev pub with_ptr : Ptr → Event U.Raw → Event U.Raw
  with_ptr p ev =
      if is_variable u U ev
      then record ev {
        content = U.put_ext (record { len = (U.get_ext ev.content).len; ptr = p }) ev.content;
      }
      else ev

  -- `ev'` is `ev` but for the pointer to its blob, which is in the block `lo`, the last one before `hi`,
  -- if there is one, and its blob has the bytes `bs`, now and later.
  abbrev pub IsCopy : Event U.Raw → List ℕ → Event U.Raw → ℕ → ℕ → Heap → Type 0
  IsCopy ev bs ev' lo hi k =
      (p : Ptr) × IsPlaced p lo hi
      × (ev' ≡ with_ptr p ev)
      × ((j : Heap) → Extends k j → payload u U ev' j ≡ some bs)

  pub seq_event_copy-IsCopy :
      (ev : Event U.Raw) (bs rest : List ℕ) (h k : Heap)
      → payload u U ev h ≡ some bs
      → (ev' : Event U.Raw) × (k' : Heap) × (seq_event_copy u U ev (bs ++ rest) k ≡ some (ev', k'))
        × IsCopy ev bs ev' k.next k'.next k'
        × Extends k k'
  unfolding seq_event_copy get_length_mode
  seq_event_copy-IsCopy ev bs rest h k e = elim (Bool-cases (is_variable u U ev)) [
    | inl v ↦
        let (p, k', made, placed, kept, grows) = alloc-load_ptr len bs k (sized v) in
        (
          record ev { content = U.put_ext (record { len = len; ptr = p }) ev.content },
          k',
          rw (v, ◌>>=◌, first_bytes-append bs rest len (sized v), or_fault, made),
          (
            p,
            placed,
            rw v,
            λ j x. rw (v, U.get_ext-put_ext (record { len = len; ptr = p }) ev.content) (kept j x),
          ),
          grows,
        )
    | inr v ↦ (
      ev,
      k,
      rw v,
      (null, inl (refl, refl), rw v, λ j x. rw v (rw v at e)),
      (omega arith, λ a lt. refl),
    )
  ]
    where
      len : ℕ
      len = (U.get_ext ev.content).len

      sized : is_variable u U ev ≡ true → length bs ≡ len
      sized v = rw v at (payload-length u U ev h bs e)

  -- The pointwise relation of what was sent to what was received. The blobs of what was received are
  -- one by one in the blocks from `lo` on, and the last of them is the last block of the heap `k`.
  abbrev pub AreCopies : List (Event U.Raw) → Heap → List (Event U.Raw) → ℕ → Heap → Type 0
  AreCopies [] h [] lo k = k.next ≡ lo
  AreCopies [] h (ev' ∷ evs') lo k = ⊥
  AreCopies (ev ∷ evs) h [] lo k = ⊥
  AreCopies (ev ∷ evs) h (ev' ∷ evs') lo k =
      (hi : ℕ) × ((bs : List ℕ) × (payload u U ev h ≡ some bs) × IsCopy ev bs ev' lo hi k)
      × AreCopies evs h evs' hi k

  -- Every blob can be read.
  abbrev pub AreReadable : List (Event U.Raw) → Heap → Type 0
  AreReadable [] h = Unit
  AreReadable (ev ∷ evs) h = ((bs : List ℕ) × (payload u U ev h ≡ some bs)) × AreReadable evs h
