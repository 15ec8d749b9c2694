-- ===== src/Seq/Query/Queues.antt =====
-- The list of the queues of the sequencer, alsaseq_get_queue_id_list of src/seq/query.c.
use alsa_gobject.Base.{
  padded, padded-nil, ℕ, zero, suc, ◌+◌, ◌%◌, ◌^◌, ◌<◌, true, false, if◌then◌else◌, ◌==◌, leb, none,
  some, List, [], ◌∷◌, ◌++◌, length, replicate, ◌≡◌, refl, sym, ap, ◌∙◌, arith, append_assoc,
  length-append, inl, inr, append-nil, le→leb,
}
use alsa_gobject.Platform.{Platform, Reply, answer, errno, Reply-cases, ended, success}
use alsa_gobject.Seq.Query.{SystemInfo, collect_queues, get_queue_id_list}
use alsa_gobject.Seq.Query.Lists.{put-append, bytes}

module _ {Info : Type 0} (queue_info : ℕ → Reply Info) where
  -- The numbers from one on, of some that follow, that the sequencer has a queue of.
  abbrev pub present : ℕ → ℕ → List ℕ
  present zero i = []
  present (suc left) i = elim (queue_info i) [
    | errno e ↦ present left (suc i)
    | answer info ↦ i ∷ present left (suc i)
  ]

  module _ (p : Platform) (count : ℕ) where
    collect_queues-present :
        (left i index : ℕ) (before : List ℕ) (places : ℕ)
        → index ≡ length before
        → index + suc places ≡ count
        → collect_queues p queue_info count left i index (before ++ replicate (suc places) 0)
          ≡ some (before ++ padded (suc places) (bytes (present left i)))
    unfolding collect_queues
    collect_queues-present zero i index before places here room =
        ap (λ t. some (before ++ (0 ∷ t))) (sym (padded-nil places))
    collect_queues-present (suc left) i index before zero here room =
        elim (Reply-cases (queue_info i)) [
          | inl (e, absent) ↦
              rw (collect_queues, present, absent)
                (collect_queues-present left (suc i) index before zero here room)
          | inr (info, there) ↦
              rw
                (
                  collect_queues,
                  present,
                  there,
                  put-append before index 0 (i % 2 ^ 8) [] here,
                  le→leb count (suc index) (omega arith),
                )
                (ap some (append-nil (before ++ (i % 2 ^ 8 ∷ []))))
        ]
    collect_queues-present (suc left) i index before (suc places) here room =
        elim (Reply-cases (queue_info i)) [
          | inl (e, absent) ↦
              rw (collect_queues, present, absent)
                (collect_queues-present left (suc i) index before (suc places) here room)
          | inr (info, there) ↦
              let more : leb count (suc index) ≡ false = ground arith in
              rw
                (
                  collect_queues,
                  present,
                  there,
                  put-append before index 0 (i % 2 ^ 8) (0 ∷ replicate places 0) here,
                  more,
                )
                (collect_queues-present left (suc i) (suc index) (before ++ (i % 2 ^ 8 ∷ [])) places
                    (omega (arith, length-append before (i % 2 ^ 8 ∷ []))) (omega arith)
                  ∙ ap some (
                      append_assoc before (i % 2 ^ 8 ∷ [])
                        (padded (suc places) (bytes (present left (suc i))))))
        ]

  collect_queues_all :
      (p : Platform) (count left : ℕ)
      → 0 < count
      → collect_queues p queue_info count left 0 0 (replicate count 0)
        ≡ some (padded count (bytes (present left 0)))
  collect_queues_all p zero left h = absurd (omega arith)
  collect_queues_all p (suc count) left h =
      collect_queues-present p (suc count) left 0 0 [] count refl (omega arith)

  -- Where the descriptor is opened and the sequencer counts some queues, the call succeeds and closes
  -- the descriptor once. It gives as many entries as were counted: the numbers of the queues that the
  -- sequencer has, in ascending order, cut off where queues were added meanwhile, and zeros at the end
  -- where queues were removed.
  pub get_queue_id_list-present :
      (p : Platform) (fd : ℕ) (info : SystemInfo)
      → 0 < info.cur_queues
      → get_queue_id_list p
          (record { truth = true; fd = some fd; error = none })
          (answer info)
          queue_info
        ≡ record {
          closed = fd ∷ [];
          outcome = ended (success (some (padded info.cur_queues (bytes (present info.queues 0)))));
        }
  unfolding get_queue_id_list
  get_queue_id_list-present p fd info some_queue =
      let other : (info.cur_queues == 0) ≡ false = ground arith in
      rw (
        get_queue_id_list,
        if◌then◌else◌,
        other,
        collect_queues_all p info.cur_queues info.queues some_queue,
      )
