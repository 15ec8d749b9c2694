-- ===== src/Seq/Query/Ports.antt =====
-- The list of the ports of a client, alsaseq_get_port_id_list of src/seq/query.c.
use alsa_gobject.Base.{
  padded, ℕ, ◌^◌, ◌<◌, true, false, if◌then◌else◌, none, some, List, [], ◌∷◌, length, ◌≡◌, refl, ap,
  ◌∙◌, arith,
}
use alsa_gobject.Platform.{Platform, Reply, answer, ended, success}
use alsa_gobject.Seq.Query.{minus_one, get_port_id_list}
use alsa_gobject.Seq.Query.Lists.{kept, bytes, Walks, walk-Walks}

kept_all : (ids : List ℕ) → kept (λ id. false) ids ≡ ids
kept_all [] = refl
kept_all (id ∷ ids) = ap (λ t. id ∷ t) (kept_all ids)

module _ (p : Platform) (num_ports : ℕ → Reply ℕ) (next : ℕ → ℕ → ℕ → Reply ℕ) where
  -- Where the descriptor is opened, the client has a number of ports, and its ports asked for one after
  -- the other from the start are `ids`, the call succeeds with as many entries as were counted: the
  -- identifiers in their order, cut off where ports were added meanwhile, and zeros at the end where
  -- ports were removed. The descriptor is closed twice.
  pub get_port_id_list-Walks :
      (fd client_id count : ℕ) (ids : List ℕ)
      → num_ports client_id ≡ answer count
      → length ids < 2 ^ 32
      → Walks p (next client_id) 0 (minus_one 8) ids
      → get_port_id_list p
          (record { truth = true; fd = some fd; error = none })
          num_ports
          next
          client_id
        ≡ record { closed = fd ∷ (fd ∷ []); outcome = ended (success (padded count (bytes ids))) }
  unfolding get_port_id_list
  get_port_id_list-Walks fd client_id count ids counted fits w =
      rw (get_port_id_list, if◌then◌else◌, counted)
        (ap (λ t. record { closed = fd ∷ (fd ∷ []); outcome = t })
          (walk-Walks p (next client_id) (λ id. false) count ids (2 ^ 32) 0 (minus_one 8) 0 [] count
              fits refl (omega arith) w
            ∙ ap (λ t. ended (success (padded count (bytes t)))) (kept_all ids)))
