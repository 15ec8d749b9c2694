-- ===== src/Seq/ClientInfo/Filter.antt =====
-- The bitmap of src/seq/client-info.c stands for a set of event types.
use alsa_gobject.Base.{
  among, members, or_swap, or_false, ℕ, zero, suc, ◌+◌, ◌/◌, ◌%◌, ◌<◌, ◌≤◌, Bool, true, false, not,
  ◌&&◌, ◌||◌, if◌then◌else◌, ◌==◌, ltb, List, [], ◌∷◌, get_or, length, replicate, length-replicate,
  ◌≡◌, refl, sym, ap, ◌∙◌, arith, Bool-cases, inl, inr,
}
use alsa_gobject.Base.Bits.{bit, bit_and-bit, bit-bit_or, bit-zero, zero_other, suc_other, suc_same}
use alsa_gobject.Seq.ClientInfo.{
  ClientInfo, set_bit, set_types, set_event_filter, has_type, filtered_types, get_event_filter,
}

length-set_bit : (bs : List ℕ) (order idx : ℕ) → length (set_bit bs order idx) ≡ length bs
unfolding set_bit
length-set_bit [] order idx = refl
length-set_bit (b ∷ bs) zero idx = refl
length-set_bit (b ∷ bs) (suc order) idx = ap suc (length-set_bit bs order idx)

-- The bit that is read at a place of the bitmap after another was set.
bit-set_bit :
    (bs : List ℕ) (order idx at j : ℕ)
    → at < length bs
    → bit j (get_or (set_bit bs order idx) at 0)
      ≡ (if (order == at) && (idx == j) then 1 else bit j (get_or bs at 0))
unfolding set_bit
bit-set_bit [] order idx at j inside = absurd (omega arith)
bit-set_bit (b ∷ bs) zero idx zero j inside = bit-bit_or idx j b
bit-set_bit (b ∷ bs) zero idx (suc at) j inside = rw (zero_other at, if◌then◌else◌)
bit-set_bit (b ∷ bs) (suc order) idx zero j inside = rw (suc_other order, if◌then◌else◌)
bit-set_bit (b ∷ bs) (suc order) idx (suc at) j inside =
    bit-set_bit bs order idx at j (omega arith)
    ∙ ap (λ (t : Bool). if t && (idx == j) then 1 else bit j (get_or bs at 0))
        (sym (suc_same order at))

same_type : (t i : ℕ) → ((t / 8 == i / 8) && (t % 8 == i % 8)) ≡ (t == i)
same_type t i = ground arith

has_type-bit :
    (bs : List ℕ) (i : ℕ) → i < 256 → has_type bs i ≡ not (bit (i % 8) (get_or bs (i / 8) 0) == 0)
unfolding has_type
has_type-bit bs i small =
    let inside : ltb (i / 8) 32 ≡ true = ground arith in
    rw (inside) (ap (λ t. not t) (bit_and-bit (i % 8) (get_or bs (i / 8) 0)))

has_type-set_bit :
    (bs : List ℕ) (t i : ℕ)
    → i < 256
    → length bs ≡ 32
    → has_type (set_bit bs (t / 8) (t % 8)) i ≡ ((t == i) || has_type bs i)
has_type-set_bit bs t i small size =
    has_type-bit (set_bit bs (t / 8) (t % 8)) i small
    ∙ ap (λ (x : ℕ). not (x == 0)) (bit-set_bit bs (t / 8) (t % 8) (i / 8) (i % 8) (omega arith))
    ∙ ap (λ (x : Bool). not ((if x then 1 else bit (i % 8) (get_or bs (i / 8) 0)) == 0))
        (same_type t i)
    ∙ elim (Bool-cases (t == i)) [
      | inl same ↦ rw (same, if◌then◌else◌)
      | inr other ↦ rw (other, if◌then◌else◌) (sym (has_type-bit bs i small))
    ]

has_type-set_types :
    (ts : List ℕ) (bs : List ℕ) (i : ℕ)
    → i < 256
    → length bs ≡ 32
    → has_type (set_types bs ts) i ≡ (among i ts || has_type bs i)
unfolding set_types
has_type-set_types [] bs i small size = refl
has_type-set_types (t ∷ ts) bs i small size =
    has_type-set_types ts (set_bit bs (t / 8) (t % 8)) i small
      (length-set_bit bs (t / 8) (t % 8) ∙ size)
    ∙ ap (λ (x : Bool). among i ts || x) (has_type-set_bit bs t i small size)
    ∙ or_swap (among i ts) (t == i) (has_type bs i)

nothing_set : (n at : ℕ) → get_or {A = ℕ} (replicate n 0) at 0 ≡ 0
nothing_set zero at = refl
nothing_set (suc n) zero = refl
nothing_set (suc n) (suc at) = nothing_set n at

has_type-new : (i : ℕ) → i < 256 → has_type (replicate 32 0) i ≡ false
has_type-new i small =
    has_type-bit (replicate 32 0) i small
    ∙ ap (λ (x : ℕ). not (bit (i % 8) x == 0)) (nothing_set 32 (i / 8))
    ∙ ap (λ (x : ℕ). not (x == 0)) (bit-zero (i % 8))

filtered_types-members :
    (bs ts : List ℕ) (left i : ℕ)
    → i + left ≤ 256
    → ((j : ℕ) → j < 256 → has_type bs j ≡ among j ts)
    → filtered_types bs left i ≡ members ts left i
unfolding filtered_types
filtered_types-members bs ts zero i small same = refl
filtered_types-members bs ts (suc left) i small same =
    rw (same i (omega arith), filtered_types-members bs ts left (suc i) (omega arith) same)

-- The bitmap is a set of the types below 256: after types were set in any order, with repetitions and
-- whatever the bitmap was before, the types that are read are those of them below 256, in ascending
-- order and each once.
pub get_event_filter-set_event_filter :
    (self : ClientInfo) (event_types : List ℕ)
    → get_event_filter (set_event_filter self event_types) ≡ members event_types 256 0
unfolding get_event_filter set_event_filter
get_event_filter-set_event_filter self event_types =
    filtered_types-members (set_types (replicate 32 0) event_types) event_types 256 0 (omega arith)
      (λ j small.
        has_type-set_types event_types (replicate 32 0) j small (length-replicate {A = ℕ} 32 0)
        ∙ ap (λ (x : Bool). among j event_types || x) (has_type-new j small)
        ∙ or_false (among j event_types))
