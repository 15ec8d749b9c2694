-- ===== src/Seq/Query/Objects.antt =====
-- The queries of src/seq/query.c for one object: what they close, and when they are undefined.
use alsa_gobject.Base.{ℕ, none, some, List, [], ◌∷◌}
use alsa_gobject.Platform.{
  Platform, Reply, answer, errno, fault, generate_file_error, ended, success, failure,
}
use alsa_gobject.Descriptor.{Session}

module _ (p : Platform) {A B : Type 0} (f : A → B) where
  -- What a query for one object comes to, by what the device node and the sequencer answer: undefined
  -- behaviour where no device node is found, a file error and no descriptor where it is not opened, and
  -- else a descriptor that is closed once, with the object or a file error.
  abbrev pub queried : Reply (List ℕ) → (List ℕ → Reply ℕ) → Reply A → Session B
  queried (errno e) open_node reply = record { closed = []; outcome = fault }
  queried (answer name) open_node reply = elim (open_node name) [
    | errno e ↦ record { closed = []; outcome = ended (failure (some (generate_file_error p e))) }
    | answer fd ↦ elim reply [
      | errno e ↦ record {
        closed = fd ∷ [];
        outcome = ended (failure (some (generate_file_error p e)));
      }
      | answer a ↦ record { closed = fd ∷ []; outcome = ended (success (f a)) }
    ]
  ]

module _ (p : Platform) {B : Type 0} where
  -- What a call that returns behind the opening comes to: no descriptor is closed.
  abbrev pub left_open : Reply (List ℕ) → (List ℕ → Reply ℕ) → Session B
  left_open (errno e) open_node = record { closed = []; outcome = fault }
  left_open (answer name) open_node = elim (open_node name) [
    | errno e ↦ record { closed = []; outcome = ended (failure (some (generate_file_error p e))) }
    | answer fd ↦ record { closed = []; outcome = ended (failure none) }
  ]
