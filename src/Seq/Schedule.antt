-- ===== src/Seq/Schedule.antt =====
-- src/seq/user-client.c: scheduling one event and a list of events. The system call `write` is a
-- parameter: of the bytes that it is given it tells how many it took, or the error number.
pub mod Count
pub mod Single
use alsa_gobject.Base.{
  ℕ, suc, ◌+◌, Bool, true, false, if◌then◌else◌, ◌==◌, leb, Option, none, some, List, [], ◌∷◌,
}
use alsa_gobject.Platform.{
  Platform, Reply, answer, errno, GError, local, Ended, success, failure, Outcome, fault, ended,
  file_or_failed,
}
use alsa_gobject.Seq.Uapi.{Uapi, Union}
use alsa_gobject.Seq.Event.{Event}
use alsa_gobject.Seq.Event.Heap.{Heap}
use alsa_gobject.Seq.Event.Flatten.{
  Layout, seq_event_calculate_flattened_length, seq_event_copy_flattened, seq_event_is_deliverable,
}
use alsa_gobject.Seq.EventCntr.{EventCntr, serialize}

-- `ALSASeqUserClientError`
pub data UserClientError : Type 0 where
  failed port_permission queue_permission event_undeliverable : UserClientError

module _ (p : Platform) (u : Uapi) (U : Union) (L : Layout u U) (write : List ℕ → Reply ℕ) where
  -- Behind the write of an event: all of it has to be taken.
  unfoldable pub check_written : ℕ → Reply ℕ → Ended UserClientError (Unit {0})
  check_written length (errno e) = failure (some (file_or_failed p failed e))
  check_written length (answer result) = if result == length then success tt else failure none

  -- An event with no blob is written as it stands, another through a buffer.
  unfoldable pub schedule_event : Event U.Raw → Heap → Outcome UserClientError (Unit {0})
  schedule_event ev h =
      if seq_event_is_deliverable u U ev
      then (let length = seq_event_calculate_flattened_length u U ev false in
          if length == u.event_size
          then ended (check_written length (write (L.image ev)))
          else (elim (seq_event_copy_flattened u U L ev length h) [
            | none ↦ fault
            | some buf ↦ ended (check_written length (write buf))
          ]))
      else ended (failure (some (local event_undeliverable)))

  unfoldable pub all_deliverable : List (Event U.Raw) → Bool
  all_deliverable [] = true
  all_deliverable (ev ∷ events) =
      if seq_event_is_deliverable u U ev then all_deliverable events else false

  -- The loop that counts the events which `result` bytes hold: the bytes and the count.
  unfoldable pub count_scheduled : ℕ → List (Event U.Raw) → ℕ → ℕ → ℕ × ℕ
  count_scheduled result [] pos scheduled = (pos, scheduled)
  count_scheduled result (ev ∷ events) pos scheduled =
      let pos' = pos + seq_event_calculate_flattened_length u U ev false in
      let rest = count_scheduled result events pos' (suc scheduled) in
      if leb result pos' then (pos', suc scheduled) else rest

  unfoldable pub report_scheduled : List (Event U.Raw) → Reply ℕ → Ended UserClientError (Option ℕ)
  report_scheduled events (errno e) = failure (some (file_or_failed p failed e))
  report_scheduled events (answer result) =
      let counted = count_scheduled result events 0 0 in
      if result == counted.0 then success (some (counted.1)) else failure none

  -- `none` in place of a count: `*count` is not written.
  unfoldable pub schedule_events : List (Event U.Raw) → Heap → Outcome UserClientError (Option ℕ)
  schedule_events events h =
      if all_deliverable events
      then (elim (serialize u U L (record { buf = none; length = 0; aligned = false }) events false
          h) [
            | none ↦ fault
            | some cntr ↦ if cntr.length == 0 then ended (success none) else (elim (cntr.buf) [
              | none ↦ fault
              | some buf ↦ ended (report_scheduled events (write buf))
            ])
          ])
      else ended (failure (some (local event_undeliverable)))
