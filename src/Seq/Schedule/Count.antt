-- ===== src/Seq/Schedule/Count.antt =====
-- What the count of a scheduled list says of the bytes that the kernel took.
use alsa_gobject.Base.{
  ℕ, zero, suc, ◌+◌, ◌≤◌, ◌<◌, ◌≡◌, refl, true, false, Bool-cases, inl, inr, if◌then◌else◌, ◌==◌,
  leb, leb→le, le→leb, ==_iff, Option-cases, none, some, List, [], ◌∷◌, length, take, ap, ap₂, ◌∙◌,
  arith,
}
use alsa_gobject.Platform.{Platform, Reply, answer, errno, success, ended}
use alsa_gobject.Seq.Uapi.{Uapi, Union}
use alsa_gobject.Seq.Event.{Event}
use alsa_gobject.Seq.Event.Flatten.{Layout, seq_event_calculate_flattened_length}
use alsa_gobject.Seq.Event.Heap.{Heap}
use alsa_gobject.Seq.EventCntr.{total_length, flatten_events, serialize}
use alsa_gobject.Seq.EventCntr.Regions.{flattened_length-ge}
use alsa_gobject.Seq.EventCntr.RoundTrip.{total_length-ne-zero}
use alsa_gobject.Seq.Schedule.{all_deliverable, count_scheduled, report_scheduled, schedule_events}

module _ (p : Platform) (u : Uapi) (U : Union) (L : Layout u U) (write : List ℕ → Reply ℕ) where
  -- The loop stops at the first event at whose end `result` bytes are reached, or at the last one.
  count_scheduled-prefix :
      (result : ℕ) (events : List (Event U.Raw)) (pos scheduled : ℕ)
      → (k : ℕ) × (k ≤ length events)
        × (count_scheduled p u U L write result events pos scheduled
            ≡ (pos + total_length u U L (take k events) false, scheduled + k))
  unfolding count_scheduled total_length
  count_scheduled-prefix result [] pos scheduled = (0, omega arith, ground arith)
  count_scheduled-prefix result (ev ∷ events) pos scheduled =
      let pos' = pos + seq_event_calculate_flattened_length u U ev false in
      elim (Bool-cases (leb result pos')) [
        | inl stop ↦ (
          1,
          omega arith,
          rw (stop, if◌then◌else◌) (ap₂ (λ a b. (a, b)) (omega arith) (omega arith)),
        )
        | inr more ↦
            (let (k, few, e) = count_scheduled-prefix result events pos' (suc scheduled) in
              (
                suc k,
                omega arith,
                rw (more, if◌then◌else◌) (e ∙ ap₂ (λ a b. (a, b)) (omega arith) (omega arith)),
              ))
      ]

  -- Where `result` bytes end at the event `k`, the loop stops there.
  count_scheduled-stop :
      (result : ℕ) (events : List (Event U.Raw)) (pos scheduled k : ℕ)
      → 0 < u.event_size
      → suc k ≤ length events
      → result ≡ pos + total_length u U L (take (suc k) events) false
      → count_scheduled p u U L write result events pos scheduled ≡ (result, scheduled + suc k)
  unfolding count_scheduled total_length
  count_scheduled-stop result [] pos scheduled k size few e = absurd (omega arith)
  count_scheduled-stop result (ev ∷ events) pos scheduled zero size few e =
      rw (le→leb result (pos + seq_event_calculate_flattened_length u U ev false) (omega arith))
        (ap₂ (λ a b. (a, b)) (omega arith) (omega arith))
  count_scheduled-stop result (ev ∷ []) pos scheduled (suc k) size few e = absurd (omega arith)
  count_scheduled-stop result (ev ∷ (ev' ∷ events)) pos scheduled (suc k) size few e =
      let pos' = pos + seq_event_calculate_flattened_length u U ev false in
      let later =
        count_scheduled-stop result (ev' ∷ events) pos' (suc scheduled) k size (omega arith)
          (omega arith) in
      elim (Bool-cases (leb result pos')) [
        | inl stop ↦
            absurd (omega (arith, leb→le result pos' stop, flattened_length-ge u U ev' false size))
        | inr more ↦ rw (more, if◌then◌else◌) (later ∙ ap₂ (λ a b. (a, b)) refl (omega arith))
      ]

  -- The report of a written list gives a count exactly when the bytes taken are those of whole
  -- events, and then the count is the number of these events.
  report_scheduled-count :
      (events : List (Event U.Raw)) (result c : ℕ)
      → report_scheduled p u U L write events (answer result) ≡ success (some c)
      → (c ≤ length events) × (result ≡ total_length u U L (take c events) false)
  unfolding report_scheduled
  report_scheduled-count events result c e =
      let (k, few, counted) = count_scheduled-prefix result events 0 0 in
      let reported = rw (counted) at e in
      elim (Bool-cases (result == 0 + total_length u U L (take k events) false)) [
        | inl same ↦ conclude k few same (cc (rw (same, if◌then◌else◌) at reported))
        | inr other ↦ absurd (cc (rw (other, if◌then◌else◌) at reported))
      ]
    where
      conclude :
          (k : ℕ)
          → k ≤ length events
          → (result == 0 + total_length u U L (take k events) false) ≡ true
          → 0 + k ≡ c
          → (c ≤ length events) × (result ≡ total_length u U L (take c events) false)
      conclude k few same q =
          let equal = (==_iff result (0 + total_length u U L (take k events) false)).0 same in
          let q' : k ≡ c = omega (arith, q) in rw (← q') (few, omega (arith, equal))

  reply-count :
      (events : List (Event U.Raw)) (r : Reply ℕ) (c : ℕ)
      → report_scheduled p u U L write events r ≡ success (some c)
      → (result : ℕ) × (r ≡ answer result)
        × (c ≤ length events)
        × (result ≡ total_length u U L (take c events) false)
  unfolding report_scheduled
  reply-count events (errno n) c e = absurd (cc e)
  reply-count events (answer result) c e =
      let (few, same) = report_scheduled-count events result c e in (result, refl, few, same)

  schedule_events-nil : (h : Heap) → schedule_events p u U L write [] h ≡ ended (success none)
  unfolding schedule_events serialize all_deliverable
  schedule_events-nil h = refl

  -- Where a list of events is scheduled with a count `c`, the buffer written is the events one
  -- behind another, `c` is at most their number, and as many bytes of the buffer were taken as the
  -- first `c` events have.
  pub schedule_events-count :
      (events : List (Event U.Raw)) (h : Heap) (c : ℕ)
      → schedule_events p u U L write events h ≡ ended (success (some c))
      → (buf : List ℕ) × (result : ℕ) × (flatten_events u U L events false h ≡ some buf)
        × (write buf ≡ answer result)
        × (c ≤ length events)
        × (result ≡ total_length u U L (take c events) false)
  unfolding schedule_events serialize
  schedule_events-count [] h c e = absurd (cc (rw (schedule_events-nil h) at e))
  schedule_events-count (ev ∷ events) h c e =
      elim (Bool-cases (all_deliverable p u U L write (ev ∷ events))) [
        | inr refused ↦ absurd (cc (rw (refused, if◌then◌else◌) at e))
        | inl deliverable ↦ elim (Bool-cases (total_length u U L (ev ∷ events) false == 0)) [
          | inl empty ↦ absurd (cc (rw (deliverable, empty, if◌then◌else◌) at e))
          | inr full ↦ elim (Option-cases (flatten_events u U L (ev ∷ events) false h)) [
            | inl unread ↦ absurd (cc (rw (deliverable, full, unread, if◌then◌else◌) at e))
            | inr (buf, made) ↦
                (let wrote = rw (deliverable, full, made, full, if◌then◌else◌) at e in
                  let (result, taken, few, same) =
                    reply-count (ev ∷ events) (write buf) c (cc wrote) in
                  (buf, result, made, taken, few, same))
          ]
        ]
      ]

  report_scheduled_complete :
      (events : List (Event U.Raw)) (k : ℕ)
      → 0 < u.event_size
      → suc k ≤ length events
      → report_scheduled p u U L write events
          (answer (total_length u U L (take (suc k) events) false))
        ≡ success (some (suc k))
  unfolding report_scheduled
  report_scheduled_complete events k size few =
      let r = total_length u U L (take (suc k) events) false in
      let stopped = count_scheduled-stop r events 0 0 k size few (omega arith) in
      rw (stopped, (==_iff r r).1 refl, if◌then◌else◌)
        (ap (λ (n : ℕ). success (some n)) (omega arith))

  -- Where all of the events can be delivered, their blobs can be read and `write` takes exactly the
  -- bytes of the first `k + 1` of them, the call succeeds with the count `k + 1`.
  pub schedule_events_complete :
      (ev : Event U.Raw) (events : List (Event U.Raw)) (h : Heap) (buf : List ℕ) (k : ℕ)
      → 0 < u.event_size
      → all_deliverable p u U L write (ev ∷ events) ≡ true
      → flatten_events u U L (ev ∷ events) false h ≡ some buf
      → k ≤ length events
      → write buf ≡ answer (total_length u U L (take (suc k) (ev ∷ events)) false)
      → schedule_events p u U L write (ev ∷ events) h ≡ ended (success (some (suc k)))
  unfolding schedule_events serialize
  schedule_events_complete ev events h buf k size deliverable made few taken =
      let full = total_length-ne-zero u U L size false h ev events in
      let reported = report_scheduled_complete (ev ∷ events) k size (omega arith) in
      rw (deliverable, full, made, full, taken, reported)
