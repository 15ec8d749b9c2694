-- ===== src/Seq/UserClient/Sources.antt =====
-- The sources of src/seq/user-client.c, and what the object closes when it is finalized.
use alsa_gobject.Base.{
  ◌+◌, ◌⊎◌, ◌≢◌, ◌∙◌, ℕ, suc, none, some, Option-cases, List, [], ◌∷◌, replicate, length, ◌≡◌, sym,
  ap, inl, inr,
}
use alsa_gobject.Platform.{Ended, success, failure}
use alsa_gobject.Lifetime.{Live, IsUnref, Reachable, IsCreation, Reachable-IsHeld}
use alsa_gobject.Seq.Schedule.{UserClientError}
use alsa_gobject.Seq.UserClient.{UserClient}

-- The descriptors that the object closes when it is finalized.
unfoldable pub finalize : UserClient → List ℕ
finalize self = elim (self.fd) [ none ↦ [] | some fd ↦ fd ∷ [] ]

-- The buffer has a page. The source takes a reference to the object.
unfoldable pub create_source :
    ℕ → Live UserClient → Live UserClient × Ended UserClientError (Unit {0})
create_source page_size w = elim (w.object.fd) [
  | none ↦ (w, failure none)
  | some fd ↦ (
    record w {
      references = suc (w.references);
      sources =
          (record { polled = fd; buf = replicate page_size 0; buf_len = page_size }) ∷ w.sources;
    },
    success tt,
  )
]

-- The states before and after a creation that succeeds.
abbrev pub Created : ℕ → Live UserClient → Live UserClient → Type 0
Created page_size w w' = create_source page_size w ≡ (w', success tt)

-- A creation that succeeds adds one source and one reference, and nothing else.
Created-one_more :
    (page_size : ℕ) (w w' : Live UserClient)
    → Created page_size w w'
    → (fd : ℕ) × (record w {
      references = suc (w.references);
      sources =
          (record { polled = fd; buf = replicate page_size 0; buf_len = page_size }) ∷ w.sources;
    }
        ≡ w')
unfolding create_source
Created-one_more page_size w w' c = elim (Option-cases w.object.fd) [
  | inl closed ↦ absurd (cc (rw (create_source, closed) at c))
  | inr (fd, opened) ↦ (fd, ap (λ t. t.0) (rw (create_source, opened) at c))
]

create_source-IsCreation : (page_size : ℕ) → IsCreation (Created page_size)
create_source-IsCreation page_size = record {
  object_same = λ w w' c. sym (ap (λ t. t.object) ((Created-one_more page_size w w' c).1));
  one_more = λ w w' c. sym (ap (λ t. t.references) ((Created-one_more page_size w w' c).1));
  one_source = λ w w' c. sym (ap (λ t. length (t.sources)) ((Created-one_more page_size w w' c).1));
  closed_same = λ w w' c. sym (ap (λ t. t.closed) ((Created-one_more page_size w w' c).1));
}

-- Where `g_object_unref` finalizes an object with its last reference: after any creations and
-- finalizations of sources and references taken and dropped by the application, from an object whose
-- descriptor is `fd`, the references are those of the application and of the sources; where there are
-- none, the calls of `close` that were made are one with `fd`, and where there is one there were none.
pub create_source-closes :
    (unref : Live UserClient → Live UserClient) (page_size fd : ℕ) (self : UserClient)
    (w : Live UserClient) (n : ℕ)
    → IsUnref finalize unref
    → self.fd ≡ some fd
    → Reachable unref (Created page_size) self w n
    → (w.references ≡ n + length (w.sources))
      × (((w.references ≡ 0) × (w.closed ≡ fd ∷ [])) ⊎ ((w.references ≢ 0) × (w.closed ≡ [])))
unfolding finalize
create_source-closes unref page_size fd self w n law opened reached =
    let h =
      Reachable-IsHeld finalize unref law self (Created page_size)
        (create_source-IsCreation page_size) w n reached in
    (
      h.counted,
      (elim (h.closes) [
        | inl (gone, closed) ↦ inl (gone, closed ∙ rw (finalize, opened))
        | inr held ↦ inr held
      ]),
    )
