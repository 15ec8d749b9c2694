-- ===== src/Seq/Schedule/Single.antt =====
-- The bytes that are written for one event.
use alsa_gobject.Base.{
  ℕ, ◌+◌, ◌<◌, ◌≡◌, refl, ap, sym, ◌∙◌, true, false, Bool-cases, inl, inr, if◌then◌else◌, ◌==◌,
  ==_iff, some, List, [], ◌∷◌, ◌++◌, append-nil, length, length-append, arith,
}
use alsa_gobject.Platform.{Platform, Reply, ended}
use alsa_gobject.Seq.Uapi.{Uapi, Union}
use alsa_gobject.Seq.Event.{Event}
use alsa_gobject.Seq.Event.Heap.{Heap}
use alsa_gobject.Seq.Event.Flatten.{
  Layout, seq_event_calculate_flattened_length, seq_event_is_deliverable,
}
use alsa_gobject.Seq.EventCntr.Regions.{
  payload, payload_length, payload-length, copy_flattened-region,
}
use alsa_gobject.Seq.Schedule.{check_written, schedule_event}

no_elem : (bs : List ℕ) → length bs ≡ 0 → bs ≡ []
no_elem [] e = refl
no_elem (b ∷ bs) e = absurd (omega (arith, e))

module _ (p : Platform) (u : Uapi) (U : Union) (L : Layout u U) (write : List ℕ → Reply ℕ) where
  unaligned :
      (ev : Event U.Raw)
      → seq_event_calculate_flattened_length u U ev false ≡ u.event_size + payload_length u U ev
  unfolding seq_event_calculate_flattened_length
  unaligned ev = refl

  -- For an event that can be delivered and whose blob can be read, `write` is given the structure with
  -- the bytes of the blob behind it, whichever of the two ways of the call the event takes, and the call
  -- succeeds when all of these bytes are taken.
  pub schedule_event-payload :
      (ev : Event U.Raw) (h : Heap) (bs : List ℕ)
      → 0 < u.event_size
      → seq_event_is_deliverable u U ev ≡ true
      → payload u U ev h ≡ some bs
      → schedule_event p u U L write ev h
        ≡ ended (check_written p u U L write (u.event_size + length bs) (write (L.image ev ++ bs)))
  unfolding schedule_event
  schedule_event-payload ev h bs size deliverable readable =
      let full = seq_event_calculate_flattened_length u U ev false in
      let total : full ≡ u.event_size + length bs =
        unaligned ev
        ∙ ap (λ (n : ℕ). u.event_size + n) (sym (payload-length u U ev h bs readable)) in
      let (pad, copied, count) = copy_flattened-region u U L ev false h bs size readable in
      let no_pad : pad ≡ [] = no_elem pad (
        omega (
          arith,
          total,
          count,
          length-append (L.image ev) (bs ++ pad),
          length-append bs pad,
          L.length-image ev,
        )) in
      let region : L.image ev ++ (bs ++ pad) ≡ L.image ev ++ bs =
        ap (λ t. L.image ev ++ (bs ++ t)) no_pad ∙ ap (λ t. L.image ev ++ t) (append-nil bs) in
      elim (Bool-cases (full == u.event_size)) [
        | inl plain ↦
            let empty : bs ≡ [] =
              no_elem bs (omega (arith, total, (==_iff full u.event_size).0 plain)) in
            let image : L.image ev ≡ L.image ev ++ bs =
              sym (append-nil (L.image ev)) ∙ ap (λ t. L.image ev ++ t) (sym empty) in
            rw (deliverable, plain, if◌then◌else◌, ← image, ← total) refl
        | inr long ↦ rw (deliverable, long, copied, region, total, if◌then◌else◌)
      ]
