-- ===== src/Lifetime.antt =====
-- How long an object for a character device lives: each GSource that src/seq/user-client.c or
-- src/timer/user-instance.c creates has a reference to its object, which closes its descriptor when it
-- is finalized. The reference counting of GObject is a parameter.
use alsa_gobject.Base.{
  ℕ, zero, suc, ◌+◌, ◌<◌, List, [], ◌∷◌, ◌++◌, append-nil, length, ◌≡◌, ◌≢◌, ◌⊎◌, inl, inr, refl,
  sym, ap, ◌∙◌, arith,
}

-- What the two files have under the names UserClientSource and TimerUserInstanceSource: the descriptor
-- that is polled, and the buffer.
pub record Source : Type 0 where
  pub polled : ℕ
  pub buf : List ℕ
  pub buf_len : ℕ

-- The object, its reference count, its sources that are alive and the descriptors that it has closed.
pub record Live (A : Type 0) : Type 0 where
  pub object : A
  pub references : ℕ
  pub sources : List Source
  pub closed : List ℕ

-- What GObject documents of `g_object_unref`: the last reference finalizes the object. `finalize` gives
-- the descriptors that this closes.
pub record IsUnref {A : Type 0} (finalize : A → List ℕ) (unref : Live A → Live A) : Type 0 where
  pub kept :
      (w : Live A) (n : ℕ) → w.references ≡ suc (suc n) → unref w ≡ record w { references = suc n }
  pub last :
      (w : Live A)
      → w.references ≡ 1
      → unref w ≡ record w { references = 0; closed = finalize (w.object) ++ w.closed }

-- The finalization of a source, after which the sources `left` are alive: its buffer is gone, and its
-- reference is dropped.
abbrev pub finalize_src : {A : Type 0} → (Live A → Live A) → Live A → List Source → Live A
finalize_src unref w left = unref (record w { sources = left })

-- The application takes and drops references of its own, of which it has `n`, and creates sources; a
-- source is finalized. `created` relates the states before and after a creation that succeeds.
pub data Step {A : Type 0} (unref : Live A → Live A) (created : Live A → Live A → Type 0)
    : Live A → ℕ → Live A → ℕ → Type 0 where
  takes :
      (w : Live A) (n : ℕ)
      → Step unref created w (suc n) (record w { references = suc (w.references) }) (suc (suc n))
  drops : (w : Live A) (n : ℕ) → Step unref created w (suc n) (unref w) n
  creates : (w w' : Live A) (n : ℕ) → created w w' → Step unref created w (suc n) w' (suc n)
  ends :
      (w : Live A) (n : ℕ) (before after : List Source) (src : Source)
      → w.sources ≡ before ++ (src ∷ after)
      → Step unref created w n (finalize_src unref w (before ++ after)) n

-- The states that come of a new object, which the application holds, by steps.
pub data Reachable {A : Type 0} (unref : Live A → Live A) (created : Live A → Live A → Type 0)
    (object : A) : Live A → ℕ → Type 0 where
  fresh :
      Reachable unref created object
        (record { object = object; references = 1; sources = []; closed = [] })
        1
  next :
      (w w' : Live A) (n n' : ℕ)
      → Reachable unref created object w n
      → Step unref created w n w' n'
      → Reachable unref created object w' n'

-- The references are those of the application and of the sources; the object has closed its
-- descriptor, once, where there are none, and nothing where there is one.
pub record IsHeld {A : Type 0} (finalize : A → List ℕ) (object : A) (w : Live A) (n : ℕ)
    : Type 0 where
  pub same : w.object ≡ object
  pub counted : w.references ≡ n + length (w.sources)
  pub closes :
      ((w.references ≡ 0) × (w.closed ≡ finalize object)) ⊎ ((w.references ≢ 0) × (w.closed ≡ []))

-- What a creation does: the source has a reference, and nothing is closed.
pub record IsCreation {A : Type 0} (created : Live A → Live A → Type 0) : Type 0 where
  pub object_same : (w w' : Live A) → created w w' → w'.object ≡ w.object
  pub one_more : (w w' : Live A) → created w w' → w'.references ≡ suc (w.references)
  pub one_source : (w w' : Live A) → created w w' → length (w'.sources) ≡ suc (length (w.sources))
  pub closed_same : (w w' : Live A) → created w w' → w'.closed ≡ w.closed

zero-or-suc : (n : ℕ) → (n ≡ 0) ⊎ ((k : ℕ) × (n ≡ suc k))
zero-or-suc zero = inl refl
zero-or-suc (suc k) = inr (k, refl)

length-without :
    (before after : List Source) (src : Source)
    → length (before ++ (src ∷ after)) ≡ suc (length (before ++ after))
length-without [] after src = refl
length-without (b ∷ before) after src = ap suc (length-without before after src)

module _ {A : Type 0} (finalize : A → List ℕ) (unref : Live A → Live A)
    (law : IsUnref finalize unref) (object : A) where
  -- A reference that somebody has is dropped.
  unref-IsHeld :
      (w : Live A) (n : ℕ)
      → w.object ≡ object
      → w.references ≡ suc (n + length (w.sources))
      → w.closed ≡ []
      → IsHeld finalize object (unref w) n
  unref-IsHeld w n same count unclosed = elim (zero-or-suc (n + length (w.sources))) [
    | inl none_left ↦ rw (law.last w (count ∙ ap suc none_left)) (record {
      same = same;
      counted = sym none_left;
      closes = inl (refl, rw (same, unclosed, append-nil));
    })
    | inr (k, left) ↦ rw (law.kept w k (count ∙ ap suc left)) (record {
      same = same;
      counted = sym left;
      closes = inr ((λ e. absurd (omega (arith, e))), unclosed);
    })
  ]

  -- While somebody has a reference nothing is closed.
  open_while_held :
      (w : Live A) (n : ℕ) → IsHeld finalize object w n → 0 < n + length (w.sources) → w.closed ≡ []
  open_while_held w n h some_left = elim (h.closes) [
    | inl (gone, closed) ↦ absurd (omega (arith, gone, h.counted, some_left))
    | inr (held, unclosed) ↦ unclosed
  ]

  module _ (created : Live A → Live A → Type 0) (creation : IsCreation created) where
    Step-IsHeld :
        (w w' : Live A) (n n' : ℕ)
        → IsHeld finalize object w n
        → Step unref created w n w' n'
        → IsHeld finalize object w' n'
    Step-IsHeld w w' n n' h (takes _ m) = record {
      same = h.same;
      counted = omega (arith, h.counted);
      closes = inr ((λ e. absurd (omega (arith, e))), open_while_held w (suc m) h (omega arith));
    }
    Step-IsHeld w w' n n' h (drops _ m) =
        unref-IsHeld w m (h.same) (omega (arith, h.counted))
          (open_while_held w (suc m) h (omega arith))
    Step-IsHeld w w' n n' h (creates _ _ m c) = record {
      same = creation.object_same w w' c ∙ h.same;
      counted = omega (arith, creation.one_more w w' c, creation.one_source w w' c, h.counted);
      closes = inr (
        (λ e. absurd (omega (arith, e, creation.one_more w w' c))),
        creation.closed_same w w' c ∙ open_while_held w (suc m) h (omega arith),
      );
    }
    Step-IsHeld w w' n n' h (ends _ m before after src e) =
        let shorter = ap length e ∙ length-without before after src in
        unref-IsHeld (record w { sources = before ++ after }) n (h.same)
          (omega (arith, shorter, h.counted)) (open_while_held w n h (omega (arith, shorter)))

    -- After any steps the references are those of the application and of the sources, and the
    -- descriptor is closed, once, exactly when there are none.
    pub Reachable-IsHeld :
        (w : Live A) (n : ℕ) → Reachable unref created object w n → IsHeld finalize object w n
    Reachable-IsHeld w n fresh = record {
      same = refl;
      counted = refl;
      closes = inr ((λ e. absurd (omega (arith, e))), refl);
    }
    Reachable-IsHeld w n (next v _ m _ reached step) =
        Step-IsHeld v w m n (Reachable-IsHeld v m reached) step
