-- ===== src/Seq/EventCntr.antt =====
-- src/seq/event-cntr.c: a buffer of flattened events, written from a list and read back.
pub mod Regions
pub mod Copies
pub mod Loop
pub mod RoundTrip
use alsa_gobject.Base.{
  ℕ, zero, suc, ◌+◌, Bool, if◌then◌else◌, ◌==◌, leb, ltb, Option, none, some, List, [], ◌∷◌, ◌++◌,
  drop,
}
use alsa_gobject.Seq.Uapi.{Uapi, Union}
use alsa_gobject.Seq.Event.{Event}
use alsa_gobject.Seq.Event.Heap.{Heap, Mem, pure, ◌>>=◌}
use alsa_gobject.Seq.Event.Flatten.{
  Layout, seq_event_calculate_flattened_length, seq_event_copy_flattened, seq_event_copy,
}

-- `ALSASeqEventCntr`; `none` is the NULL buffer.
pub record EventCntr : Type 0 where
  pub buf : Option (List ℕ)
  pub length : ℕ
  pub aligned : Bool

-- `struct seq_event_iter`
pub record Iter : Type 0 where
  pub buf : Option (List ℕ)
  pub length : ℕ
  pub offset : ℕ
  pub aligned : Bool

module _ (u : Uapi) (U : Union) (L : Layout u U) where
  unfoldable pub total_length : List (Event U.Raw) → Bool → ℕ
  total_length [] aligned = 0
  total_length (ev ∷ events) aligned =
      seq_event_calculate_flattened_length u U ev aligned + total_length events aligned

  -- The regions of the buffer, one after another.
  unfoldable pub flatten_events : List (Event U.Raw) → Bool → Heap → Option (List ℕ)
  flatten_events [] aligned h = some []
  flatten_events (ev ∷ events) aligned h =
      let rest = flatten_events events aligned h in
      elim (seq_event_copy_flattened u U L ev (seq_event_calculate_flattened_length u U ev aligned)
        h) [
          | none ↦ none
          | some region ↦ elim rest [ none ↦ none | some regions ↦ some (region ++ regions) ]
        ]

  -- For the empty list, NULL, the check of `g_return_if_fail` ends the call.
  unfoldable pub serialize : EventCntr → List (Event U.Raw) → Bool → Heap → Option EventCntr
  serialize self [] aligned h = some self
  serialize self (ev ∷ events) aligned h =
      if total_length (ev ∷ events) aligned == 0
      then some self
      else (elim (flatten_events (ev ∷ events) aligned h) [
        | none ↦ none
        | some buf ↦ some (record {
          buf = some buf;
          length = total_length (ev ∷ events) aligned;
          aligned = aligned;
        })
      ])

  -- The next event, as the bytes of the buffer from its place on.
  unfoldable pub iter_next : Iter → Option (List ℕ × Iter)
  iter_next iter = elim (iter.buf) [
    | none ↦ none
    | some buf ↦
        let place = drop iter.offset buf in
        let length = seq_event_calculate_flattened_length u U (L.parse place) iter.aligned in
        if ltb iter.offset iter.length
        then (if leb (iter.offset + length) iter.length
            then some (place, record iter { offset = iter.offset + length })
            else none)
        else none
  ]

  -- The loop of the deserializer; `none` also stands for fuel that ran out.
  unfoldable pub deserialize_from : ℕ → Iter → List (Event U.Raw) → Mem (List (Event U.Raw))
  deserialize_from zero iter events h = none
  deserialize_from (suc fuel) iter events h = elim (iter_next iter) [
    | none ↦ some (events, h)
    | some (place, iter') ↦ elim (seq_event_copy u U (L.parse place) (drop u.event_size place) h) [
      | none ↦ none
      | some (event, h') ↦ deserialize_from fuel iter' (events ++ (event ∷ [])) h'
    ]
  ]

  -- Each round moves the offset on, so one round more than the buffer has bytes is enough.
  unfoldable pub deserialize : EventCntr → Mem (List (Event U.Raw))
  deserialize self =
      deserialize_from (suc self.length)
        (record { buf = self.buf; length = self.length; offset = 0; aligned = self.aligned }) []
