-- ===== src/Seq/Event/Ownership.antt =====
-- Who owns the blob of an event, and what the setters do to it and to the rest of the heap.
use alsa_gobject.Base.{
  ℕ, ◌≡◌, refl, if◌then◌else◌, ◌==◌, Bool-cases, inl, inr, Option, none, some, List, arith,
}
use alsa_gobject.Seq.Uapi.{Uapi, Union, Ptr, null, inline, heap, user}
use alsa_gobject.Seq.Event.{Event, get_length_mode}
use alsa_gobject.Seq.Event.Heap.{Heap, update, free_block, ◌>>=◌}
use alsa_gobject.Seq.Event.Data.{free_ext_ptr, free_blob_data, clear_data_fields}

-- The block of the heap that a pointer owns.
abbrev pub block_of : Ptr → Option ℕ
block_of null = none
block_of inline = none
block_of (heap a) = some a
block_of (user a) = none

-- A pointer may be freed: it does not point into the application's memory, and its block is there.
abbrev pub IsFreeable : Ptr → Heap → Type 0
IsFreeable null h = Unit
IsFreeable inline h = Unit
IsFreeable (heap a) h = (bs : List ℕ) × (h.cell a ≡ some bs)
IsFreeable (user a) h = ⊥

-- The heap without a block.
abbrev pub without : Option ℕ → Heap → Heap
without none h = h
without (some a) h = record h { cell = update h.cell a none }

module _ (u : Uapi) (U : Union) where
  -- The block that an event owns: that of its pointer, in the mode of variable length only.
  abbrev pub blob_block : Event U.Raw → Option ℕ
  blob_block ev =
      if get_length_mode u ev == u.event_length_variable
      then block_of ((U.get_ext ev.content).ptr)
      else none

  -- An event owns its blob: in the mode of variable length its pointer may be freed.
  abbrev pub Owns : Event U.Raw → Heap → Type 0
  Owns ev h =
      get_length_mode u ev ≡ u.event_length_variable → IsFreeable ((U.get_ext ev.content).ptr) h

  free_ext_ptr-without :
      (p : Ptr) (h : Heap)
      → IsFreeable p h
      → free_ext_ptr u U p h ≡ some (tt, without (block_of p) h)
  unfolding free_ext_ptr
  free_ext_ptr-without null h ok = refl
  free_ext_ptr-without inline h ok = refl
  free_ext_ptr-without (heap a) h ok = rw (ok.1, free_block)
  free_ext_ptr-without (user a) h ok = absurd ok

  -- `free_blob_data` frees the block that the event owns and no other.
  pub free_blob_data-without :
      (ev : Event U.Raw) (h : Heap)
      → Owns ev h
      → free_blob_data u U ev h ≡ some (tt, without (blob_block ev) h)
  unfolding free_blob_data
  free_blob_data-without ev h ok =
      elim (Bool-cases (get_length_mode u ev == u.event_length_variable)) [
        | inl e ↦ rw e (free_ext_ptr-without ((U.get_ext ev.content).ptr) h (ok (ground arith)))
        | inr e ↦ rw e
      ]

  pub clear_data_fields-without :
      (ev : Event U.Raw) (h : Heap)
      → Owns ev h
      → clear_data_fields u U ev h
        ≡ some (record ev { content = U.zeros }, without (blob_block ev) h)
  unfolding clear_data_fields
  clear_data_fields-without ev h ok = rw (free_blob_data-without ev h ok, ◌>>=◌)
