-- ===== src/Seq/Query/Clients.antt =====
-- The list of the clients of the sequencer, alsaseq_get_client_id_list of src/seq/query.c.
use alsa_gobject.Base.{
  padded, ℕ, ◌-◌, ◌+◌, ◌%◌, ◌^◌, ◌≤◌, ◌<◌, true, false, if◌then◌else◌, ◌==◌, none, some, List, [],
  ◌∷◌, length, replicate, ◌≡◌, ◌≢◌, refl, ap, arith, length-replicate, Bool-cases, inl, inr,
}
use alsa_gobject.Platform.{Platform, Reply, answer, errno, fault, ended, success}
use alsa_gobject.Seq.Query.{SystemInfo, minus_one, get_client_id_list}
use alsa_gobject.Seq.Query.Lists.{kept, bytes, Walks, walk-Walks, Ascends, walk-Ascends}

module _ (p : Platform) (next : ℕ → ℕ → Reply ℕ) where
  -- Where the descriptor is opened, the sequencer counts at least two clients, and its clients asked for
  -- one after the other from the start are `ids`, the call succeeds and closes the descriptor once. It
  -- gives as many entries as there are clients but the caller: the identifiers of the others in their
  -- order, cut off where clients were added meanwhile, and zeros at the end where clients were removed.
  pub get_client_id_list-Walks :
      (fd me : ℕ) (info : SystemInfo) (ids : List ℕ)
      → 2 ≤ info.cur_clients
      → info.cur_clients < 2 ^ 31
      → length ids < 2 ^ 32
      → Walks p next 0 (minus_one 32) ids
      → get_client_id_list p
          (record { truth = true; fd = some fd; error = none })
          (answer me)
          (answer info)
          next
        ≡ record {
          closed = fd ∷ [];
          outcome =
              ended (success (padded (info.cur_clients - 1) (bytes (kept (λ id. id == me) ids))));
        }
  unfolding get_client_id_list
  get_client_id_list-Walks fd me info ids many small fits w =
      let count : (info.cur_clients + (2 ^ 32 - 1)) % 2 ^ 32 ≡ info.cur_clients - 1 = omega arith in
      let other : (info.cur_clients - 1 == 0) ≡ false = ground arith in
      rw (get_client_id_list, if◌then◌else◌, count, other)
        (ap (λ t. record { closed = fd ∷ []; outcome = t })
          (walk-Walks p next (λ id. id == me) (info.cur_clients - 1) ids (2 ^ 32) 0 (minus_one 32) 0
            [] (info.cur_clients - 1) fits refl (omega arith) w))

  -- Where the sequencer gives the clients in ascending order, the call returns, whatever errors it meets
  -- and however many clients come and go meanwhile.
  pub get_client_id_list-Ascends :
      (fd : ℕ) (me : Reply ℕ) (info : Reply SystemInfo)
      → Ascends next
      → (get_client_id_list p
          (record { truth = true; fd = some fd; error = none })
          me
          info
          next).outcome
        ≢ fault
  unfolding get_client_id_list
  get_client_id_list-Ascends fd (errno e) info asc h = absurd (cc h)
  get_client_id_list-Ascends fd (answer me) (errno e) asc h = absurd (cc h)
  get_client_id_list-Ascends fd (answer me) (answer info) asc h =
      let count = (info.cur_clients + (2 ^ 32 - 1)) % 2 ^ 32 in
      elim (Bool-cases (count == 0)) [
        | inl alone ↦ absurd (cc (rw (alone, if◌then◌else◌) at h))
        | inr others ↦
            walk-Ascends p next (λ id. id == me) count (2 ^ 32) 0 (minus_one 32) 0
              (replicate count 0) asc (length-replicate count 0) (omega arith) (omega arith)
              (rw (others, if◌then◌else◌) at h)
      ]
