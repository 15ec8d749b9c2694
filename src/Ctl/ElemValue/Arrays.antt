-- ===== src/Ctl/ElemValue/Arrays.antt =====
-- Arrays of words that are stored in bytes and loaded again.
use alsa_gobject.Base.{
  ℕ, zero, suc, ◌+◌, ◌*◌, ◌^◌, ◌<◌, ◌≤◌, ◌≡◌, refl, sym, ap, ap₂, ◌∙◌, List, [], ◌∷◌, ◌++◌, length,
  replicate, padded, arith, append_assoc, length-append, length-replicate, take-append, drop-append,
  drop-drop, replicate_add,
}
use alsa_gobject.Ctl.ElemValue.{WordLayout, splice, sizeof_array, store, load}

-- Every value is a word of the layout.
abbrev pub Words : WordLayout → List ℕ → Type 0
Words L [] = Unit
Words L (v ∷ vs) = (v < 2 ^ (8 * L.size)) × Words L vs

module _ (L : WordLayout) where
  -- The bytes of an array with some values, and zeros behind them.
  abbrev pub array_bytes : ℕ → List ℕ → List ℕ
  array_bytes zero vs = []
  array_bytes (suc n) [] = replicate L.size 0 ++ array_bytes n []
  array_bytes (suc n) (v ∷ vs) = L.encode v ++ array_bytes n vs

  zeros-array_bytes : (n : ℕ) → replicate (sizeof_array L n) 0 ≡ array_bytes n []
  zeros-array_bytes zero = refl
  zeros-array_bytes (suc n) =
      replicate_add L.size (sizeof_array L n) 0
      ∙ ap (λ t. replicate L.size 0 ++ t) (zeros-array_bytes n)

  pub length-array_bytes : (n : ℕ) (vs : List ℕ) → length (array_bytes n vs) ≡ sizeof_array L n
  length-array_bytes zero vs = refl
  length-array_bytes (suc n) [] = omega (
    arith,
    length-append (replicate L.size 0) (array_bytes n []),
    length-replicate {A = ℕ} L.size 0,
    length-array_bytes n [],
  )
  length-array_bytes (suc n) (v ∷ vs) = omega (
    arith,
    length-append (L.encode v) (array_bytes n vs),
    L.length-encode v,
    length-array_bytes n vs,
  )

  splice-append :
      (before old bs rest : List ℕ) (at : ℕ)
      → at ≡ length before
      → length old ≡ length bs
      → splice (before ++ (old ++ rest)) at bs ≡ before ++ (bs ++ rest)
  splice-append before old bs rest at here same = rw (
    take-append before (old ++ rest) at here,
    sym (drop-drop at (length bs) (before ++ (old ++ rest))),
    drop-append before (old ++ rest) at here,
    drop-append old rest (length bs) (sym same),
  )

  -- Values that are stored in a cleared array.
  pub store-array_bytes :
      (vs : List ℕ) (n at : ℕ) (before rest : List ℕ)
      → length vs ≤ n
      → at ≡ length before
      → store L at vs (before ++ (replicate (sizeof_array L n) 0 ++ rest))
        ≡ before ++ (array_bytes n vs ++ rest)
  unfolding store
  store-array_bytes [] n at before rest fits here =
      ap (λ t. before ++ (t ++ rest)) (zeros-array_bytes n)
  store-array_bytes (v ∷ vs) zero at before rest fits here = absurd (omega arith)
  store-array_bytes (v ∷ vs) (suc n) at before rest fits here =
      let left = replicate (sizeof_array L n) 0 ++ rest in
      let zeros : List ℕ = replicate L.size 0 in
      let split : replicate (L.size + sizeof_array L n) 0 ++ rest ≡ zeros ++ left =
        ap (λ t. t ++ rest) (replicate_add L.size (sizeof_array L n) 0)
        ∙ append_assoc zeros (replicate (sizeof_array L n) 0) rest in
      let written : splice (before ++ (zeros ++ left)) at (L.encode v)
          ≡ before ++ (L.encode v ++ left) =
        splice-append before zeros (L.encode v) left at here
          (length-replicate L.size 0 ∙ sym (L.length-encode v)) in
      ap (λ t. store L (at + L.size) vs (splice (before ++ t) at (L.encode v))) split
      ∙ ap (λ t. store L (at + L.size) vs t) (written ∙ sym (append_assoc before (L.encode v) left))
      ∙ store-array_bytes vs n (at + L.size) (before ++ L.encode v) rest (omega arith)
          (omega (arith, length-append before (L.encode v), L.length-encode v))
      ∙ append_assoc before (L.encode v) (array_bytes n vs ++ rest)
      ∙ ap (λ t. before ++ t) (sym (append_assoc (L.encode v) (array_bytes n vs) rest))

  -- The first word of an array, and what is left.
  load_step :
      (n at : ℕ) (before word more rest : List ℕ)
      → at ≡ length before
      → length word ≡ L.size
      → load L (suc n) at (before ++ ((word ++ more) ++ rest))
        ≡ L.decode word ∷ load L n (at + L.size) ((before ++ word) ++ (more ++ rest))
  unfolding load
  load_step n at before word more rest here size =
      let tail = ap (λ t. before ++ t) (append_assoc word more rest) in
      rw
        (
          tail,
          drop-append before (word ++ (more ++ rest)) at here,
          take-append word (more ++ rest) L.size (sym size),
        )
        (ap (λ t. L.decode word ∷ load L n (at + L.size) t)
          (sym (append_assoc before word (more ++ rest))))

  -- What is loaded from an array with values.
  pub load-array_bytes :
      (vs : List ℕ) (n at : ℕ) (before rest : List ℕ)
      → Words L vs
      → at ≡ length before
      → load L n at (before ++ (array_bytes n vs ++ rest)) ≡ padded n vs
  unfolding load
  load-array_bytes vs zero at before rest words here = refl
  load-array_bytes [] (suc n) at before rest words here =
      let zeros : List ℕ = replicate L.size 0 in
      let size : length zeros ≡ L.size = length-replicate L.size 0 in
      load_step n at before zeros (array_bytes n []) rest here size
      ∙ ap₂ (λ (x : ℕ) (xs : List ℕ). x ∷ xs) L.decode-zeros
          (load-array_bytes [] n (at + L.size) (before ++ zeros) rest tt
            (omega (arith, length-append before zeros, size)))
  load-array_bytes (v ∷ vs) (suc n) at before rest (word, words) here =
      load_step n at before (L.encode v) (array_bytes n vs) rest here (L.length-encode v)
      ∙ ap₂ (λ (x : ℕ) (xs : List ℕ). x ∷ xs) (L.decode-encode v word)
          (load-array_bytes vs n (at + L.size) (before ++ L.encode v) rest words
            (omega (arith, length-append before (L.encode v), L.length-encode v)))
