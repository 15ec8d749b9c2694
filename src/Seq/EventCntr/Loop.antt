-- ===== src/Seq/EventCntr/Loop.antt =====
-- The iterator and the loop of the deserializer, over the regions of a serialized list.
use alsa_gobject.Base.{
  ℕ, zero, suc, ◌+◌, ◌<◌, ◌≡◌, refl, ap, sym, ◌∙◌, Bool, le→leb, lt→ltb, none, some, List, [], ◌∷◌,
  ◌++◌, append-nil, append_assoc, length, drop, drop-drop, length-append, drop-append, arith,
}
use alsa_gobject.Seq.Uapi.{Uapi, Union}
use alsa_gobject.Seq.Event.{Event}
use alsa_gobject.Seq.Event.Heap.{Heap}
use alsa_gobject.Seq.Event.Flatten.{
  Layout, seq_event_calculate_flattened_length, seq_event_copy_flattened, seq_event_copy,
}
use alsa_gobject.Seq.EventCntr.{Iter, total_length, flatten_events, iter_next, deserialize_from}
use alsa_gobject.Seq.EventCntr.Regions.{flattened_length-ge, copy_flattened-region}
use alsa_gobject.Seq.EventCntr.Copies.{
  Extends, Extends-trans, seq_event_copy-IsCopy, AreCopies, AreReadable,
}

module _ (u : Uapi) (U : Union) where
  module _ (L : Layout u U) (pos : 0 < u.event_size) (aligned : Bool) (h : Heap) where
    -- The buffer of readable events, as long as the first loop of the serializer computes.
    pub flatten_events-length :
        (evs : List (Event U.Raw))
        → AreReadable u U evs h
        → (buf : List ℕ) × (flatten_events u U L evs aligned h ≡ some buf)
          × (length buf ≡ total_length u U L evs aligned)
    unfolding flatten_events total_length
    flatten_events-length [] r = ([], refl, refl)
    flatten_events-length (ev ∷ evs) ((bs, e), r) =
        let (pad, made, size) = copy_flattened-region u U L ev aligned h bs pos e in
        let (buf, made', size') = flatten_events-length evs r in
        (
          (L.image ev ++ (bs ++ pad)) ++ buf,
          rw (flatten_events, made, made'),
          omega (arith, length-append (L.image ev ++ (bs ++ pad)) buf),
        )

    parse-region :
        (ev : Event U.Raw) (tail rest : List ℕ) → L.parse ((L.image ev ++ tail) ++ rest) ≡ ev
    parse-region ev tail rest =
        ap L.parse (append_assoc (L.image ev) tail rest) ∙ L.parse-image ev (tail ++ rest)

    -- One step of the iterator over a region.
    iter_next-region :
        (ev : Event U.Raw) (tail rest buf : List ℕ) (offset total : ℕ)
        → drop offset buf ≡ (L.image ev ++ tail) ++ rest
        → length (L.image ev ++ tail) ≡ seq_event_calculate_flattened_length u U ev aligned
        → offset + length ((L.image ev ++ tail) ++ rest) ≡ total
        → iter_next u U L
            (record { buf = some buf; length = total; offset = offset; aligned = aligned })
          ≡ some (
            (L.image ev ++ tail) ++ rest,
            record {
              buf = some buf;
              length = total;
              offset = offset + length (L.image ev ++ tail);
              aligned = aligned;
            },
          )
    unfolding iter_next
    iter_next-region ev tail rest buf offset total place size sum = rw (
      place,
      parse-region ev tail rest,
      ← size,
      lt→ltb offset total (omega (arith, sizes, L.length-image ev)),
      le→leb (offset + length (L.image ev ++ tail)) total (omega (arith, sizes)),
    )
      where
        sizes :
            (length ((L.image ev ++ tail) ++ rest) ≡ length (L.image ev ++ tail) + length rest)
            × (length (L.image ev ++ tail) ≡ length (L.image ev) + length tail)
        sizes = (length-append (L.image ev ++ tail) rest, length-append (L.image ev) tail)

    iter_next_end :
        (buf : List ℕ) (offset total : ℕ)
        → offset ≡ total
        → iter_next u U L
            (record { buf = some buf; length = total; offset = offset; aligned = aligned })
          ≡ none
    unfolding iter_next
    iter_next_end buf offset total e = ground arith

    -- What the loop reads behind the structure of an event: its blob comes first.
    trail-region :
        (ev : Event U.Raw) (bs pad regions : List ℕ)
        → drop u.event_size ((L.image ev ++ (bs ++ pad)) ++ regions) ≡ bs ++ (pad ++ regions)
    trail-region ev bs pad regions =
        ap (drop u.event_size) (append_assoc (L.image ev) (bs ++ pad) regions)
        ∙ drop-append (L.image ev) ((bs ++ pad) ++ regions) u.event_size (sym (L.length-image ev))
        ∙ append_assoc bs pad regions

    flatten_events-cons :
        (ev : Event U.Raw) (evs : List (Event U.Raw)) (rest region regions : List ℕ)
        → flatten_events u U L (ev ∷ evs) aligned h ≡ some rest
        → seq_event_copy_flattened u U L ev (seq_event_calculate_flattened_length u U ev aligned) h
          ≡ some region
        → flatten_events u U L evs aligned h ≡ some regions
        → rest ≡ region ++ regions
    unfolding flatten_events
    flatten_events-cons ev evs rest region regions made first others =
        let both : flatten_events u U L (ev ∷ evs) aligned h ≡ some (region ++ regions) =
          rw (flatten_events, first, others) in
        cc

    deserialize_from-end :
        (fuel : ℕ) (iter : Iter) (acc : List (Event U.Raw)) (k : Heap)
        → iter_next u U L iter ≡ none
        → deserialize_from u U L (suc fuel) iter acc k ≡ some (acc, k)
    unfolding deserialize_from
    deserialize_from-end fuel iter acc k e = rw (deserialize_from, e)

    deserialize_from-step :
        (fuel : ℕ) (iter iter' : Iter) (acc : List (Event U.Raw)) (k k1 : Heap) (place : List ℕ)
        (ev' : Event U.Raw)
        → iter_next u U L iter ≡ some (place, iter')
        → seq_event_copy u U (L.parse place) (drop u.event_size place) k ≡ some (ev', k1)
        → deserialize_from u U L (suc fuel) iter acc k
          ≡ deserialize_from u U L fuel iter' (acc ++ (ev' ∷ [])) k1
    unfolding deserialize_from
    deserialize_from-step fuel iter iter' acc k k1 place ev' e copied =
        rw (deserialize_from, e, copied)

    -- The loop of the deserializer over the regions that are left.
    pub deserialize_from-copies :
        (evs : List (Event U.Raw)) (rest buf : List ℕ) (offset total fuel : ℕ)
        (acc : List (Event U.Raw)) (k : Heap)
        → AreReadable u U evs h
        → flatten_events u U L evs aligned h ≡ some rest
        → drop offset buf ≡ rest
        → offset + length rest ≡ total
        → length rest < fuel
        → (evs' : List (Event U.Raw)) × (k' : Heap) × (deserialize_from u U L fuel
              (record { buf = some buf; length = total; offset = offset; aligned = aligned })
              acc
              k
            ≡ some (acc ++ evs', k'))
          × AreCopies u U evs h evs' k.next k'
          × Extends k k'
    unfolding flatten_events
    deserialize_from-copies evs rest buf offset total zero acc k r made place sum enough =
        absurd (omega arith)
    deserialize_from-copies [] rest buf offset total (suc fuel) acc k r made place sum enough = (
      [],
      k,
      deserialize_from-end fuel _ acc k (iter_next_end buf offset total (ground arith))
          ∙ ap (λ l. some (l, k)) (sym (append-nil acc)),
      refl,
      (omega arith, λ a lt. refl),
    )
    deserialize_from-copies (ev ∷ evs) rest buf offset total (suc fuel) acc k ((bs, e), r) made
          place sum enough =
        let (pad, first, size) = copy_flattened-region u U L ev aligned h bs pos e in
        let (regions, others, _) = flatten_events-length evs r in
        let region = L.image ev ++ (bs ++ pad) in
        let same = flatten_events-cons ev evs rest region regions made first others in
        let (ev', k1, copied, (p, placed, like, kept), grows) =
          seq_event_copy-IsCopy u U ev bs (pad ++ regions) h k e in
        let (evs', k', loop, copies, grows') =
          deserialize_from-copies evs regions buf (offset + length region) total fuel
            (acc ++ (ev' ∷ [])) k1 r others
            (sym (drop-drop offset (length region) buf)
              ∙ ap (drop (length region)) (place ∙ same)
              ∙ drop-append region regions (length region) refl)
            (omega (arith, ap length same, length-append region regions))
            (omega (
              arith,
              ap length same,
              length-append region regions,
              size,
              flattened_length-ge u U ev aligned pos,
            )) in
        (
          ev' ∷ evs',
          k',
          deserialize_from-step fuel _ _ acc k k1 (region ++ regions) ev'
                (iter_next-region ev (bs ++ pad) regions buf offset total (place ∙ same) size
                  (omega (arith, ap length same)))
                (rw (parse-region ev (bs ++ pad) regions, trail-region ev bs pad regions) copied)
              ∙ loop
              ∙ ap (λ l. some (l, k')) (append_assoc acc (ev' ∷ []) evs'),
          (
            k1.next,
            (bs, e, (p, placed, like, λ j x. kept j (Extends-trans k1 k' j grows' x))),
            copies,
          ),
          Extends-trans k k1 k' grows grows',
        )
