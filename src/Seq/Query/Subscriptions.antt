-- ===== src/Seq/Query/Subscriptions.antt =====
-- The subscriptions of a port, alsaseq_get_subscription_list of src/seq/query.c.
use alsa_gobject.Base.{ℕ, zero, suc, ◌+◌, ◌%◌, ◌^◌, none, List, ◌≡◌}
use alsa_gobject.Platform.{Platform, Reply, answer, errno, Outcome, fault, ended, failure}
use alsa_gobject.Descriptor.{NoCode}
use alsa_gobject.Seq.Query.{QuerySubs, PortSubscribe}

module _ (p : Platform) (query_subs : ℕ → QuerySubs → Reply QuerySubs) where
  -- The subscriptions that the sequencer gives from a query on, and that there is no other behind them.
  -- Each answer is the one for the index after that of the answer before.
  abbrev Gives : ℕ → QuerySubs → ℕ → Type 0
  Gives call query zero =
      query_subs call (record query { index = (query.index + 1) % 2 ^ 32 }) ≡ errno p.enoent
  Gives call query (suc left) =
      (query' : QuerySubs) × (query_subs call (record query { index = (query.index + 1) % 2 ^ 32 })
        ≡ answer query')
      × Gives (suc call) query' left

  -- The subscriptions behind the first of some that the sequencer counts.
  abbrev GivesCounted : QuerySubs → ℕ → Type 0
  GivesCounted query zero = Unit
  GivesCounted query (suc left) = Gives 1 query left

  -- What the call comes to where the sequencer counts some subscriptions.
  abbrev listed : ℕ → Outcome NoCode (List PortSubscribe)
  listed zero = fault
  listed (suc left) = ended (failure none)
