-- ===== src/Ctl/Card/Events/Subscription.antt =====
-- How the number of sources and the subscription of the kernel go together.
use alsa_gobject.Base.{
  ℕ, zero, suc, ◌+◌, ◌-◌, ◌<◌, ◌≡◌, refl, ap, sym, ◌∙◌, lt→ltb, true, false, ◌==◌, ltb, Option,
  Option-cases, inl, inr, arith,
}
use alsa_gobject.Platform.{Platform, GError, Reply, Reply-cases, answer, success, failure}
use alsa_gobject.Ctl.Card.{CardError, Card}
use alsa_gobject.Ctl.Card.Events.{World, get_subscribed, finalize_src, create_source}

-- The sources of a card come and go. The kernel does not refuse to end a subscription, and only a
-- source that is alive is finalized.
pub data Step (p : Platform) : World → ℕ → World → ℕ → Type 0 where
  created :
      (w w' : World) (n : ℕ) (subscribe : Reply (Unit {0}))
      → create_source p w subscribe (answer tt) ≡ (w', success tt)
      → Step p w n w' (suc n)
  refused :
      (w w' : World) (n : ℕ) (subscribe : Reply (Unit {0})) (e : Option (GError CardError))
      → create_source p w subscribe (answer tt) ≡ (w', failure e)
      → Step p w n w' n
  finalized : (w : World) (n : ℕ) → Step p w (suc n) (finalize_src w (answer tt)) n

-- The worlds that come of a new object, which has no source, by steps.
pub data Reachable (p : Platform) : World → ℕ → Type 0 where
  fresh :
      (card : Card)
      → card.subscribers ≡ 0
      → Reachable p (record { card = card; subscribed = false }) 0
  next : (w w' : World) (n n' : ℕ) → Reachable p w n → Step p w n w' n' → Reachable p w' n'

-- The counter is the number of the sources that are alive, and the kernel delivers events if and only
-- if there is one.
pub record IsCounted (w : World) (n : ℕ) : Type 0 where
  pub counter : w.card.subscribers ≡ n
  pub kernel : w.subscribed ≡ ltb 0 n

module _ (p : Platform) where
  finalize_src-IsCounted :
      (w : World) (n : ℕ)
      → w.card.subscribers ≡ suc n
      → (0 < n → w.subscribed ≡ true)
      → IsCounted (finalize_src w (answer tt)) n
  unfolding finalize_src
  finalize_src-IsCounted w zero count kept =
      rw (count) (record { counter = omega arith; kernel = refl })
  finalize_src-IsCounted w (suc n) count kept =
      rw (count, not_last)
        (record {
          counter = omega arith;
          kernel = kept (omega arith) ∙ sym (lt→ltb 0 (suc n) (omega arith));
        })
    where
      not_last : (suc (suc n) - 1 == 0) ≡ false
      not_last = ground arith

  Step-IsCounted : (w w' : World) (n n' : ℕ) → IsCounted w n → Step p w n w' n' → IsCounted w' n'
  unfolding create_source
  Step-IsCounted w w' n n' h (created _ _ _ subscribe e) = elim (Option-cases w.card.fd) [
    | inl closed ↦ absurd (cc (rw (create_source, closed) at e))
    | inr (fd, opened) ↦ elim (Reply-cases subscribe) [
      | inl (number, failed) ↦ absurd (cc (rw (create_source, opened, failed) at e))
      | inr (done, answered) ↦
          let made = rw (create_source, opened, answered) at e in
          let same = ap (λ t. t.0) made in
          rw (← same) (record {
            counter = omega (arith, h.counter);
            kernel = sym (lt→ltb 0 (suc n) (omega arith));
          })
    ]
  ]
  Step-IsCounted w w' n n' h (refused _ _ _ subscribe err e) = elim (Option-cases w.card.fd) [
    | inl closed ↦ let same = ap (λ t. t.0) (rw (create_source, closed) at e) in rw (← same) h
    | inr (fd, opened) ↦ elim (Reply-cases subscribe) [
      | inr (done, answered) ↦ absurd (cc (rw (create_source, opened, answered) at e))
      | inl (number, failed) ↦
          let same = ap (λ t. t.0) (rw (create_source, opened, failed) at e) in
          rw (← same) (
            finalize_src-IsCounted
              (record {
                card = record (w.card) { subscribers = w.card.subscribers + 1 };
                subscribed = w.subscribed;
              })
              n (omega (arith, h.counter)) (λ some_source. h.kernel ∙ lt→ltb 0 n some_source))
    ]
  ]
  Step-IsCounted w w' n n' h (finalized _ _) =
      finalize_src-IsCounted w n' h.counter
        (λ some_source. h.kernel ∙ lt→ltb 0 (suc n') (omega arith))

  -- From a new object, after any sequence of creations of a source, successful or refused, and of
  -- finalizations, if the kernel does not refuse to end a subscription, the counter is the number
  -- of sources that are alive, the kernel delivers events for the card if and only if there is
  -- one, and the property `subscribed` tells the same.
  pub Reachable-subscribed :
      (w : World) (n : ℕ)
      → Reachable p w n
      → (w.card.subscribers ≡ n) × (w.subscribed ≡ ltb 0 n) × (get_subscribed w.card ≡ w.subscribed)
  unfolding get_subscribed
  Reachable-subscribed w n r =
      let h = counted w n r in (h.counter, h.kernel, rw (h.counter) (sym h.kernel))
    where
      counted : (w : World) (n : ℕ) → Reachable p w n → IsCounted w n
      counted _ _ (fresh card e) = record { counter = e; kernel = refl }
      counted _ _ (next w w' n n' r step) = Step-IsCounted w w' n n' (counted w n r) step
