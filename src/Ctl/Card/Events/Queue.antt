-- ===== src/Ctl/Card/Events/Queue.antt =====
-- The events of the kernel that a dispatch of the source hands on.
use alsa_gobject.Base.{
  ℕ, zero, suc, ◌+◌, ◌-◌, ◌<◌, ◌≤◌, ◌≡◌, refl, ap, Bool, false, if◌then◌else◌, leb, some, List, [],
  ◌∷◌, ◌++◌, length, length-append, arith,
}
use alsa_gobject.Records.{RecordLayout, images, split_record}
use alsa_gobject.Platform.{Platform, answer}
use alsa_gobject.Ctl.Card.{Card}
use alsa_gobject.Ctl.Card.Events.{
  CtlEvent, elem, unknown, Signal, continue, elem_event_signal, handle_events, dispatch_src,
}

-- The events of elements, in order.
abbrev pub elem_signals : {Ident : Type 0} → ℕ → List (CtlEvent Ident) → List (Signal Ident)
elem_signals tlv [] = []
elem_signals tlv (elem ev ∷ events) = elem_event_signal tlv ev ∷ elem_signals tlv events
elem_signals tlv (unknown ∷ events) = elem_signals tlv events

module _ {Ident : Type 0} (tlv : ℕ) (L : RecordLayout (CtlEvent Ident)) where
  handle_events-images :
      (fuel : ℕ) (events : List (CtlEvent Ident)) (rest : List ℕ) (len : ℕ)
      → len ≤ fuel
      → length (images L events) ≤ len
      → len < length (images L events) + L.size
      → handle_events tlv L.size L.parse fuel len (images L events ++ rest)
        ≡ elem_signals tlv events
  unfolding handle_events
  handle_events-images zero [] rest len few enough over = refl
  handle_events-images zero (ev ∷ events) rest len few enough over =
      absurd
        (omega (arith, L.size_pos, length-append (L.image ev) (images L events), L.length-image ev))
  handle_events-images (suc fuel) [] rest len few enough over = rw (short, if◌then◌else◌)
    where
      short : leb L.size len ≡ false
      short = ground arith
  handle_events-images (suc fuel) (elem ev ∷ events) rest len few enough over =
      let (fits, here, next, later) = split_record L (elem ev) events rest len enough in
      rw (fits, here, next, if◌then◌else◌)
        (ap (λ t. elem_event_signal tlv ev ∷ t)
          (handle_events-images fuel events rest (len - L.size) (omega (arith, L.size_pos))
            (omega (arith, later)) (omega (arith, later, over))))
  handle_events-images (suc fuel) (unknown ∷ events) rest len few enough over =
      let (fits, here, next, later) = split_record L unknown events rest len enough in
      rw (fits, here, next, if◌then◌else◌)
        (handle_events-images fuel events rest (len - L.size) (omega (arith, L.size_pos))
          (omega (arith, later)) (omega (arith, later, over)))

  -- A dispatch of the source of an open card without an error condition, whose `read` gives the
  -- bytes of some events and perhaps a part of one more, emits one signal for each of the events
  -- of elements, in their order, with none left out, and keeps the source.
  pub dispatch_src-images :
      (p : Platform) (self : Card) (fd : ℕ) (io_in : Bool) (events : List (CtlEvent Ident))
      (rest : List ℕ)
      → self.fd ≡ some fd
      → length rest < L.size
      → dispatch_src tlv L.size L.parse p self
          (record { io_in = io_in; io_err = false })
          (answer (length (images L events ++ rest), images L events ++ rest))
        ≡ (elem_signals tlv events, continue)
  unfolding dispatch_src
  dispatch_src-images p self fd io_in events rest opened part =
      let bytes = images L events ++ rest in
      let total = length-append (images L events) rest in
      rw (
        dispatch_src,
        opened,
        handle_events-images (length bytes) events rest (length bytes) (omega arith)
            (omega (arith, total)) (omega (arith, total)),
      )
