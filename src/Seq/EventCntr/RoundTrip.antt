-- ===== src/Seq/EventCntr/RoundTrip.antt =====
-- What is serialized is read back: event by event, with its blob in a block of its own.
use alsa_gobject.Base.{suc, ◌<◌, ◌≡◌, refl, Bool, false, ◌==◌, some, List, [], ◌∷◌, arith}
use alsa_gobject.Seq.Uapi.{Uapi, Union}
use alsa_gobject.Seq.Event.{Event}
use alsa_gobject.Seq.Event.Heap.{Heap}
use alsa_gobject.Seq.Event.Flatten.{Layout}
use alsa_gobject.Seq.EventCntr.{EventCntr, total_length, serialize, deserialize}
use alsa_gobject.Seq.EventCntr.Regions.{flattened_length-ge}
use alsa_gobject.Seq.EventCntr.Copies.{Extends, AreCopies, AreReadable}
use alsa_gobject.Seq.EventCntr.Loop.{flatten_events-length, deserialize_from-copies}

module _ (u : Uapi) (U : Union) where
  module _ (L : Layout u U) (pos : 0 < u.event_size) (aligned : Bool) (h : Heap) where
    pub total_length-ne-zero :
        (ev : Event U.Raw) (evs : List (Event U.Raw))
        → (total_length u U L (ev ∷ evs) aligned == 0) ≡ false
    unfolding total_length
    total_length-ne-zero ev evs = ground (arith, flattened_length-ge u U ev aligned pos)

    pub deserialize-serialize :
        (self : EventCntr) (ev : Event U.Raw) (evs : List (Event U.Raw)) (k : Heap)
        → AreReadable u U (ev ∷ evs) h
        → (cntr : EventCntr) × (evs' : List (Event U.Raw)) × (k' : Heap) × (serialize u U L self
              (ev ∷ evs)
              aligned
              h
            ≡ some cntr)
          × (cntr.length ≡ total_length u U L (ev ∷ evs) aligned)
          × (deserialize u U L cntr k ≡ some (evs', k'))
          × AreCopies u U (ev ∷ evs) h evs' k.next k'
          × Extends k k'
    unfolding serialize deserialize
    deserialize-serialize self ev evs k r =
        let (buf, made, size) = flatten_events-length u U L pos aligned h (ev ∷ evs) r in
        let (evs', k', loop, copies, grows) =
          deserialize_from-copies u U L pos aligned h (ev ∷ evs) buf buf 0
            (total_length u U L (ev ∷ evs) aligned) (suc (total_length u U L (ev ∷ evs) aligned)) []
            k r made refl (omega (arith, size)) (omega (arith, size)) in
        (
          record {
            buf = some buf;
            length = total_length u U L (ev ∷ evs) aligned;
            aligned = aligned;
          },
          evs',
          k',
          rw (nonempty, made),
          refl,
          loop,
          copies,
          grows,
        )
      where
        nonempty : (total_length u U L (ev ∷ evs) aligned == 0) ≡ false
        nonempty = total_length-ne-zero ev evs
