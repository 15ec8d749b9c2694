-- ===== src/Seq/Event/Flatten.antt =====
-- src/seq/event.c: the flattened form of an event, its bytes followed by those of its blob, and the
-- copy of an event. The bytes of the structure are the compiler's: `image` writes them, and `parse`
-- reads the structure that stands at the front of some bytes.
use alsa_gobject.Base.{
  ℕ, ◌+◌, ◌-◌, ◌*◌, ◌/◌, ◌≡◌, bit_and, Bool, true, false, ◌&&◌, not, if◌then◌else◌, ◌==◌, leb, ltb,
  Option, none, some, List, [], ◌++◌, length, replicate,
}
use alsa_gobject.Seq.Uapi.{Uapi, Union, Ptr, null, inline, heap, user}
use alsa_gobject.Seq.Event.{Event, get_length_mode}
use alsa_gobject.Seq.Event.DataFlag
use alsa_gobject.Seq.Event.Types.{seq_event_data_flags}
use alsa_gobject.Seq.Event.Heap.{Heap, Mem, pure, first_bytes, or_fault, alloc, ◌>>=◌}

pub record Layout (u : Uapi) (U : Union) : Type 1 where
  pub image : Event U.Raw → List ℕ
  pub parse : List ℕ → Event U.Raw
  pub length-image : (ev : Event U.Raw) → length (image ev) ≡ u.event_size
  pub parse-image : (ev : Event U.Raw) (rest : List ℕ) → parse (image ev ++ rest) ≡ ev

-- `n` bytes at a pointer. What lies inline or in the application's memory is not in the heap.
abbrev pub load_ptr : Ptr → ℕ → Heap → Option (List ℕ)
load_ptr null n h = first_bytes n []
load_ptr inline n h = none
load_ptr (heap a) n h = elim (h.cell a) [ none ↦ none | some bs ↦ first_bytes n bs ]
load_ptr (user a) n h = none

module _ (u : Uapi) (U : Union) where
  abbrev pub is_variable : Event U.Raw → Bool
  is_variable ev = get_length_mode u ev == u.event_length_variable

  unfoldable pub seq_event_calculate_flattened_length : Event U.Raw → Bool → ℕ
  seq_event_calculate_flattened_length ev aligned =
      let length = u.event_size + (if is_variable ev then (U.get_ext ev.content).len else 0) in
      if aligned then (length + u.event_size - 1) / u.event_size * u.event_size else length

  unfoldable pub calculate_pool_consumption : Event U.Raw → ℕ
  calculate_pool_consumption ev = seq_event_calculate_flattened_length ev true / u.event_size

  unfoldable pub seq_event_is_deliverable : Event U.Raw → Bool
  seq_event_is_deliverable ev =
      let flags = seq_event_data_flags ev.kind in
      let mode = get_length_mode u ev in
      if mode == u.event_length_fixed
      then (if ev.kind == u.event_note
          then not (ev.queue == u.queue_direct)
          else ltb 0 (bit_and flags DataFlag.fixed_any))
      else (if mode == u.event_length_variable
          then ltb 0 (bit_and flags DataFlag.variable_any)
          else (if mode == u.event_length_varusr
              then ltb 0 (bit_and flags DataFlag.varusr_any) && (ev.queue == u.queue_direct)
              else false))

  module _ (L : Layout u U) where
    -- What the call leaves in a region of `length` zero bytes. Where the blob does not fit, the
    -- check of `g_return_if_fail` ends the call behind the copy of the structure.
    unfoldable pub seq_event_copy_flattened : Event U.Raw → ℕ → Heap → Option (List ℕ)
    seq_event_copy_flattened ev length h =
        let len = (U.get_ext ev.content).len in
        if is_variable ev
        then (if leb (u.event_size + len) length
            then (elim (load_ptr ((U.get_ext ev.content).ptr) len h) [
              | none ↦ none
              | some bs ↦ some (L.image ev ++ (bs ++ replicate (length - (u.event_size + len)) 0))
            ])
            else some (L.image ev ++ replicate (length - u.event_size) 0))
        else some (L.image ev ++ replicate (length - u.event_size) 0)

  -- `seq_event_copy` of an event behind whose structure the bytes `trail` lie in its own block.
  unfoldable pub seq_event_copy : Event U.Raw → List ℕ → Mem (Event U.Raw)
  seq_event_copy ev trail =
      let ext = U.get_ext ev.content in
      if is_variable ev
      then (do
        bs ← or_fault (first_bytes ext.len trail)
        dst ← alloc ext.len bs
        pure (record ev { content = U.put_ext (record { len = ext.len; ptr = dst }) ev.content }))
      else pure ev
