-- ===== src/Seq/Event/Heap.antt =====
-- The memory that src/seq/event.c uses through `g_malloc`, `memcpy` and `g_free`. `none` stands for
-- what C leaves undefined: a read beyond a block, or a call of `g_free` for what is no block.
use alsa_gobject.Base.{
  ℕ, ◌+◌, ◌≡◌, ◌≤◌, if◌then◌else◌, leb, ◌==◌, Option, none, some, List, length, take, arith,
}
use alsa_gobject.Seq.Uapi.{Ptr, null, inline, heap, user}

-- The allocated blocks by address, and the first address that no call has given out.
pub record Heap : Type 0 where
  pub cell : ℕ → Option (List ℕ)
  pub next : ℕ

-- A buffer that a caller hands in: its own bytes, or a block of the heap.
pub data Buffer : Type 0 where
  bytes : List ℕ → Buffer
  block : ℕ → Buffer

-- The first `n` bytes, if there are so many.
abbrev pub first_bytes : ℕ → List ℕ → Option (List ℕ)
first_bytes n bs = if leb n (length bs) then some (take n bs) else none

abbrev pub update : (ℕ → Option (List ℕ)) → ℕ → Option (List ℕ) → ℕ → Option (List ℕ)
update cell a v b = if a == b then v else cell b

pub update_self : (f : ℕ → Option (List ℕ)) (a : ℕ) (v : Option (List ℕ)) → update f a v a ≡ v
update_self f a v = ground arith

-- A step that uses the heap.
abbrev pub Mem : Type 0 → Type 0
Mem A = Heap → Option (A × Heap)

infixl 5 ◌>>=◌ ◌>>◌
abbrev pub ◌>>=◌ : {A B : Type 0} → Mem A → (A → Mem B) → Mem B
◌>>=◌ m f h = elim (m h) [ none ↦ none | some (a, h') ↦ f a h' ]

abbrev pub ◌>>◌ : {B : Type 0} → Mem (Unit {0}) → Mem B → Mem B
m >> k = m >>= λ _. k

abbrev pub pure : {A : Type 0} → A → Mem A
pure a h = some (a, h)

abbrev pub or_fault : {A : Type 0} → Option A → Mem A
or_fault none h = none
or_fault (some a) h = some (a, h)

-- Reading `n` bytes of a buffer.
abbrev pub load : Buffer → ℕ → Mem (List ℕ)
load (bytes bs) n h = or_fault (first_bytes n bs) h
load (block a) n h = elim (h.cell a) [ none ↦ none | some bs ↦ or_fault (first_bytes n bs) h ]

-- `g_malloc` of `n` bytes, filled at once: no byte gives NULL.
abbrev pub alloc : ℕ → List ℕ → Mem Ptr
alloc n bs h =
    if n == 0
    then some (null, h)
    else some (heap h.next, record { cell = update h.cell h.next (some bs); next = h.next + 1 })

abbrev pub free_block : ℕ → Mem (Unit {0})
free_block a h = elim (h.cell a) [
  | none ↦ none
  | some bs ↦ some (tt, record h { cell = update h.cell a none })
]

-- `g_free`: of NULL it does nothing, and of what is no block it is undefined.
abbrev pub free : Ptr → Mem (Unit {0})
free null h = some (tt, h)
free inline h = none
free (heap a) h = free_block a h
free (user a) h = none

-- Nothing lies at an address that is still to be given out.
abbrev pub IsFresh : Heap → Type 0
IsFresh h = (a : ℕ) → h.next ≤ a → h.cell a ≡ none
