-- ===== src/Seq/EventCntr/Regions.antt =====
-- The region of the buffer that one event fills.
use alsa_gobject.Base.{
  ℕ, ◌+◌, ◌-◌, ◌*◌, ◌/◌, ◌≤◌, ◌<◌, ◌≡◌, ap, sym, Bool, true, false, Bool-cases, inl, inr,
  if◌then◌else◌, le→leb, Option, Option-cases, some, List, [], ◌++◌, length, replicate,
  length-append, length-take, length-replicate, take-append, arith,
}
use alsa_gobject.Seq.Uapi.{Uapi, Union, Ptr, null, inline, heap, user}
use alsa_gobject.Seq.Event.{Event}
use alsa_gobject.Seq.Event.Heap.{Heap, first_bytes}
use alsa_gobject.Seq.Event.Flatten.{
  Layout, is_variable, load_ptr, seq_event_calculate_flattened_length, seq_event_copy_flattened,
}

-- Rounding up to a multiple of `s`.
pub round_up_le : (x s : ℕ) → 0 < s → x ≤ (x + s - 1) / s * s
round_up_le x s h = grind arith

first_bytes-length : (n : ℕ) (bs out : List ℕ) → first_bytes n bs ≡ some out → length out ≡ n
first_bytes-length n bs out e = ground (arith, length-take n bs)

pub first_bytes-append :
    (bs rest : List ℕ) (n : ℕ) → length bs ≡ n → first_bytes n (bs ++ rest) ≡ some bs
first_bytes-append bs rest n e =
    rw (le→leb n (length (bs ++ rest)) (omega (arith, length-append bs rest)))
      (ap some (take-append bs rest n (sym e)))

load_ptr-length :
    (p : Ptr) (n : ℕ) (h : Heap) (bs : List ℕ) → load_ptr p n h ≡ some bs → length bs ≡ n
load_ptr-length null n h bs e = first_bytes-length n [] bs e
load_ptr-length inline n h bs e = cc
load_ptr-length (heap a) n h bs e = elim (Option-cases (h.cell a)) [
  | inl missing ↦ cc (rw (missing, load_ptr) at e)
  | inr (stored, found) ↦ first_bytes-length n stored bs (rw (found, load_ptr) at e)
]
load_ptr-length (user a) n h bs e = cc

module _ (u : Uapi) (U : Union) where
  -- The bytes of the blob of an event, none for an event of another mode of length.
  abbrev pub payload : Event U.Raw → Heap → Option (List ℕ)
  payload ev h =
      if is_variable u U ev
      then load_ptr ((U.get_ext ev.content).ptr) (U.get_ext ev.content).len h
      else some []

  abbrev pub payload_length : Event U.Raw → ℕ
  payload_length ev = if is_variable u U ev then (U.get_ext ev.content).len else 0

  pub flattened_length-ge :
      (ev : Event U.Raw) (aligned : Bool)
      → 0 < u.event_size
      → u.event_size + payload_length ev ≤ seq_event_calculate_flattened_length u U ev aligned
  unfolding seq_event_calculate_flattened_length
  flattened_length-ge ev true h = round_up_le (u.event_size + payload_length ev) u.event_size h
  flattened_length-ge ev false h = omega arith

  pub payload-length :
      (ev : Event U.Raw) (h : Heap) (bs : List ℕ)
      → payload ev h ≡ some bs
      → length bs ≡ payload_length ev
  payload-length ev h bs e = elim (Bool-cases (is_variable u U ev)) [
    | inl v ↦ rw v (load_ptr-length _ _ h bs (rw v at e))
    | inr v ↦ ground arith
  ]

  module _ (L : Layout u U) where
    -- The region of an event whose blob can be read holds the structure, the blob and zeros.
    pub copy_flattened-region :
        (ev : Event U.Raw) (aligned : Bool) (h : Heap) (bs : List ℕ)
        → 0 < u.event_size
        → payload ev h ≡ some bs
        → (pad : List ℕ) × (seq_event_copy_flattened u U L ev
              (seq_event_calculate_flattened_length u U ev aligned)
              h
            ≡ some (L.image ev ++ (bs ++ pad)))
          × (length (L.image ev ++ (bs ++ pad))
              ≡ seq_event_calculate_flattened_length u U ev aligned)
    unfolding seq_event_copy_flattened
    copy_flattened-region ev aligned h bs pos e = elim (Bool-cases (is_variable u U ev)) [
      | inl v ↦ (
        replicate (full - (u.event_size + len)) 0,
        rw (
          v,
          le→leb (u.event_size + len) full (rw v at (flattened_length-ge ev aligned pos)),
          rw v at e,
        ),
        sized len (rw v at (flattened_length-ge ev aligned pos))
            (rw v at (payload-length ev h bs e)),
      )
      | inr v ↦ (
        replicate (full - (u.event_size + 0)) 0,
        rw v (ground arith),
        sized 0 (rw v at (flattened_length-ge ev aligned pos)) (rw v at (payload-length ev h bs e)),
      )
    ]
      where
        len : ℕ
        len = (U.get_ext ev.content).len

        full : ℕ
        full = seq_event_calculate_flattened_length u U ev aligned

        sized :
            (n : ℕ)
            → u.event_size + n ≤ full
            → length bs ≡ n
            → length (L.image ev ++ (bs ++ replicate (full - (u.event_size + n)) 0)) ≡ full
        sized n fits same = omega (
          arith,
          length-append (L.image ev) (bs ++ replicate (full - (u.event_size + n)) 0),
          length-append bs (replicate (full - (u.event_size + n)) 0),
          length-replicate {A = ℕ} (full - (u.event_size + n)) 0,
          L.length-image ev,
        )
