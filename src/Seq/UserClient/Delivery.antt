-- ===== src/Seq/UserClient/Delivery.antt =====
-- From the bytes that the sequencer gives a client to the events that the application sees.
use alsa_gobject.Base.{ℕ, ◌<◌, ◌≡◌, Bool, true, false, if◌then◌else◌, some, List, ◌∷◌, length}
use alsa_gobject.Platform.{Platform, answer}
use alsa_gobject.Seq.Uapi.{Uapi, Union}
use alsa_gobject.Seq.Event.{Event}
use alsa_gobject.Seq.Event.Heap.{Heap}
use alsa_gobject.Seq.Event.Flatten.{Layout}
use alsa_gobject.Seq.EventCntr.{EventCntr, total_length, flatten_events, serialize, deserialize}
use alsa_gobject.Seq.EventCntr.Copies.{Extends, AreCopies, AreReadable}
use alsa_gobject.Seq.EventCntr.RoundTrip.{deserialize-serialize, total_length-ne-zero}
use alsa_gobject.Seq.EventCntr.Loop.{flatten_events-length}
use alsa_gobject.Seq.UserClient.{UserClient, continue, dispatch_src}

module _ (u : Uapi) (U : Union) (L : Layout u U) where
  serialize-cntr :
      (pos : 0 < u.event_size) (h : Heap) (self : EventCntr) (ev : Event U.Raw)
      (evs : List (Event U.Raw)) (bytes : List ℕ)
      → flatten_events u U L (ev ∷ evs) true h ≡ some bytes
      → length bytes ≡ total_length u U L (ev ∷ evs) true
      → serialize u U L self (ev ∷ evs) true h
        ≡ some (record { buf = some bytes; length = length bytes; aligned = true })
  unfolding serialize
  serialize-cntr pos h self ev evs bytes flat count =
      rw (total_length-ne-zero u U L pos true h ev evs, flat, count, if◌then◌else◌)

  -- One or more events whose blobs can be read have an aligned form. Where `read` gives its bytes
  -- to an open client without an error condition, the signal carries a container from which the
  -- application gets as many events in the same order, each of them the event that was sent with its blob,
  -- if it has a byte, in a new block of its own, and the source is kept.
  pub dispatch_src-serialize :
      (p : Platform) (self : UserClient) (fd : ℕ) (io_in : Bool) (pos : 0 < u.event_size) (h : Heap)
      (sent : EventCntr) (ev : Event U.Raw) (evs : List (Event U.Raw)) (k : Heap)
      → self.fd ≡ some fd
      → AreReadable u U (ev ∷ evs) h
      → (bytes : List ℕ) × (cntr : EventCntr) × (evs' : List (Event U.Raw)) × (k' : Heap)
        × (flatten_events u U L (ev ∷ evs) true h ≡ some bytes)
        × (dispatch_src p self
              (record { io_in = io_in; io_err = false })
              (answer (length bytes, bytes))
            ≡ (some cntr, continue))
        × (deserialize u U L cntr k ≡ some (evs', k'))
        × AreCopies u U (ev ∷ evs) h evs' k.next k'
        × Extends k k'
  unfolding dispatch_src
  dispatch_src-serialize p self fd io_in pos h sent ev evs k opened readable =
      let (cntr, evs', k', made, size, read, copies, grows) =
        deserialize-serialize u U L pos true h sent ev evs k readable in
      let (bytes, flat, count) = flatten_events-length u U L pos true h (ev ∷ evs) readable in
      let full = serialize-cntr pos h sent ev evs bytes flat count in
      let same : record { buf = some bytes; length = length bytes; aligned = true } ≡ cntr =
        cc (full, made) in
      (bytes, cntr, evs', k', flat, rw (dispatch_src, opened, same), read, copies, grows)
