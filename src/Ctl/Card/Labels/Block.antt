-- ===== src/Ctl/Card/Labels/Block.antt =====
-- The block of the labels is read back as the labels.
use alsa_gobject.Base.{
  ℕ, zero, suc, ◌+◌, ◌*◌, ◌%◌, ◌^◌, ◌≤◌, ◌<◌, ◌≡◌, refl, ap, ◌∙◌, sym, false, Bool-cases, inl, inr,
  if◌then◌else◌, leb, ltb, ◌==◌, Option, Option-cases, none, some, List, [], ◌∷◌, ◌++◌, length,
  length-append, get_elem?, arith,
}
use alsa_gobject.Platform.{Platform, Reply, answer, success}
use alsa_gobject.Ctl.Card.Labels.{
  EnumNames, names_length, write_names, prepare_enum_names, parse_from, parse_enum_names,
}

-- Another reading of the block: the bytes before the first zero byte, and those behind it.
abbrev pub read_name : List ℕ → Option (List ℕ × List ℕ)
read_name [] = none
read_name (b ∷ bytes) =
    let rest = read_name bytes in
    if b == 0
    then some ([], bytes)
    else (elim rest [ none ↦ none | some (name, behind) ↦ some (b ∷ name, behind) ])

abbrev pub read_names : ℕ → List ℕ → Option (List (List ℕ))
read_names zero bytes = some []
read_names (suc n) bytes = elim (read_name bytes) [
  | none ↦ none
  | some (name, behind) ↦ elim (read_names n behind) [
    | none ↦ none
    | some names ↦ some (name ∷ names)
  ]
]

-- No byte is zero.
abbrev pub IsText : List ℕ → Type 0
IsText [] = Unit
IsText (b ∷ bytes) = (0 < b) × IsText bytes

abbrev pub AreTexts : List (List ℕ) → Type 0
AreTexts [] = Unit
AreTexts (label ∷ labels) = IsText label × AreTexts labels

read_name-text :
    (label rest : List ℕ) → IsText label → read_name (label ++ (0 ∷ rest)) ≡ some (label, rest)
read_name-text [] rest t = refl
read_name-text (b ∷ label) rest (pos, t) = rw (nonzero, read_name-text label rest t)
  where
    nonzero : (b == 0) ≡ false
    nonzero = ground arith

read_names-write_names :
    (labels : List (List ℕ))
    → AreTexts labels
    → read_names (length labels) (write_names labels) ≡ some labels
unfolding write_names
read_names-write_names [] t = refl
read_names-write_names (label ∷ labels) (t, ts) =
    rw (read_names, read_name-text label (write_names labels) t, read_names-write_names labels ts)

zero_plus : (n : ℕ) → 0 + n ≡ n
zero_plus n = omega arith

suc_swap : (i j : ℕ) → suc i + j ≡ i + suc j
suc_swap i j = omega arith

plus_zero : (n : ℕ) → n + 0 ≡ n
plus_zero n = omega arith

small_mod : {n : ℕ} → n < 2 ^ 32 → n % 2 ^ 32 ≡ n
small_mod h = omega arith

-- The sum of the lengths does not wrap around.
names_length-sum :
    (labels : List (List ℕ)) (sum n : ℕ)
    → sum + length (write_names labels) < 2 ^ 32
    → names_length labels sum ≡ some n
    → n ≡ sum + length (write_names labels)
unfolding names_length write_names
names_length-sum [] sum n small e = (cc e) ∙ sym (plus_zero sum)
names_length-sum (label ∷ labels) sum n small e = elim (Bool-cases (ltb (length label) 64)) [
  | inr long ↦ absurd (cc (rw (long, if◌then◌else◌) at e))
  | inl short ↦
      let total = length-append label (0 ∷ write_names labels) in
      let fits : sum + (length label + 1) < 2 ^ 32 = omega (arith, total) in
      let rest = rw (short, small_mod fits, if◌then◌else◌) at e in
      let summed =
        names_length-sum labels (sum + (length label + 1)) n (omega (arith, total)) rest in
      omega (arith, total, summed)
]

-- A list of labels that is accepted goes to the driver as a block of at most 64 KiB whose stated length
-- is its length, and who reads as many labels from the block as are stated gets the labels, if no label
-- has a zero byte inside and the labels have less than 2^32 bytes together.
pub prepare_enum_names-read :
    (labels : List (List ℕ)) (r : EnumNames)
    → AreTexts labels
    → length (write_names labels) < 2 ^ 32
    → prepare_enum_names labels ≡ some r
    → (read_names r.items r.names ≡ some labels)
      × (r.names_length ≡ length r.names)
      × (length r.names ≤ 64 * 1024)
unfolding prepare_enum_names
prepare_enum_names-read labels r texts small e = elim (Option-cases (names_length labels 0)) [
  | inl long ↦ absurd (cc (rw (prepare_enum_names, long) at e))
  | inr (n, summed) ↦ elim (Bool-cases (leb n (64 * 1024))) [
    | inr large ↦ absurd (cc (rw (prepare_enum_names, summed, large, if◌then◌else◌) at e))
    | inl fits ↦
        let made = rw (prepare_enum_names, summed, fits, if◌then◌else◌) at e in
        let same : record { names = write_names labels; names_length = n; items = length labels }
            ≡ r =
          cc made in
        let size = names_length-sum labels 0 n (omega arith) summed in
        rw (← same)
          (read_names-write_names labels texts, omega (arith, size), ground (arith, size, fits))
  ]
]

module _ (p : Platform) (elem_name : ℕ → Reply (List ℕ)) where
  -- The driver has the label `names` of the element.
  abbrev pub Names : List (List ℕ) → Type 0
  Names names = (i : ℕ) (name : List ℕ) → get_elem? names i ≡ some name → elem_name i ≡ answer name

  parse_from-Names :
      (names : List (List ℕ)) (i : ℕ)
      → ((j : ℕ) (name : List ℕ) → get_elem? names j ≡ some name → elem_name (i + j) ≡ answer name)
      → parse_from p elem_name i (length names) ≡ success names
  unfolding parse_from
  parse_from-Names [] i have = refl
  parse_from-Names (name ∷ names) i have = rw (
    ap elem_name (sym (plus_zero i)) ∙ have 0 name refl,
    parse_from-Names names (suc i)
        (λ j other at. ap elem_name (suc_swap i j) ∙ have (suc j) other at),
  )

  -- Where the driver answers the request for each item with the label of that place, the labels
  -- that the call gives are all of them, in order.
  pub parse_enum_names-Names :
      (names : List (List ℕ))
      → Names names
      → parse_enum_names p elem_name (length names) ≡ success names
  unfolding parse_enum_names
  parse_enum_names-Names names have =
      parse_from-Names names 0 (λ j name at. ap elem_name (zero_plus j) ∙ have j name at)
