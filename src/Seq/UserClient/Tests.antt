-- ===== src/Seq/UserClient/Tests.antt =====
-- A run of the sources of src/seq/user-client.c at concrete values.
use alsa_gobject.Base.{◌+◌, length, ◌≡◌, ◌≢◌, ◌⊎◌, some, [], ◌∷◌, refl}
use alsa_gobject.Samples.{counting, counting-IsUnref}
use alsa_gobject.Lifetime.{Live, Reachable, fresh, next, creates, drops, ends}
use alsa_gobject.Seq.UserClient.{UserClient}
use alsa_gobject.Seq.UserClient.Sources.{finalize, create_source, Created, create_source-closes}

abbrev client : UserClient
client = record { fd = some 3; client_id = 128; proto_ver_triplet = (1, 0, 2) }

abbrev one_source : Live UserClient
one_source = record {
  object = client;
  references = 2;
  sources = (record { polled = 3; buf = 0 ∷ (0 ∷ []); buf_len = 2 }) ∷ [];
  closed = [];
}

abbrev gone : Live UserClient
gone = record { object = client; references = 0; sources = []; closed = 3 ∷ [] }

-- The application creates a source and drops the object; the source stays.
dropped : Reachable (counting finalize) (Created 2) client (record one_source { references = 1 }) 0
unfolding create_source
dropped =
    next one_source (record one_source { references = 1 }) 1 0
      (next (record { object = client; references = 1; sources = []; closed = [] }) one_source 1 1
        fresh (creates _ _ 0 refl))
      (drops one_source 0)

-- The source is finalized, and the object with it.
ended : Reachable (counting finalize) (Created 2) client gone 0
unfolding finalize
ended =
    next (record one_source { references = 1 }) gone 0 0 dropped
      (ends (record one_source { references = 1 }) 0 [] [] _ refl)

create_source-closes_example :
    (gone.references ≡ 0 + length gone.sources)
    × (((gone.references ≡ 0) × (gone.closed ≡ 3 ∷ []))
        ⊎ ((gone.references ≢ 0) × (gone.closed ≡ [])))
create_source-closes_example =
    create_source-closes (counting finalize) 2 3 client gone 0 (counting-IsUnref finalize) refl
      ended
