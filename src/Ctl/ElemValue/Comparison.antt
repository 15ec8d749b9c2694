-- ===== src/Ctl/ElemValue/Comparison.antt =====
-- What alsactl_elem_value_equal of src/ctl/elem-value.c compares.
use alsa_gobject.Base.{
  ℕ, ◌+◌, ◌≤◌, ◌++◌, take, drop, length, take-append, drop-append, true, if◌then◌else◌, ◌==◌, List,
  [], ◌∷◌, ◌≡◌, refl, sym, ap, ap₂, ◌∙◌, ◌↔◌, arith, Bool-cases, inl, inr,
}
use alsa_gobject.Ctl.ElemValue.{WordLayout, ElemValue, sizeof_array, set_array, same_bytes, equal}
use alsa_gobject.Ctl.ElemValue.Arrays.{array_bytes}
use alsa_gobject.Ctl.ElemValue.Setters.{set_array-bytes, take_drop}

same_bytes→Path : (xs ys : List ℕ) → same_bytes xs ys ≡ true → xs ≡ ys
unfolding same_bytes
same_bytes→Path [] [] h = refl
same_bytes→Path [] (y ∷ ys) h = absurd (cc h)
same_bytes→Path (x ∷ xs) [] h = absurd (cc h)
same_bytes→Path (x ∷ xs) (y ∷ ys) h = elim (Bool-cases (x == y)) [
  | inl same ↦
      let equal_heads : x ≡ y = ground (arith, same) in
      ap₂ (λ (head : ℕ) (tail : List ℕ). head ∷ tail) equal_heads
        (same_bytes→Path xs ys (rw (same_bytes, same, if◌then◌else◌) at h))
  | inr other ↦ absurd (cc (rw (same_bytes, other, if◌then◌else◌) at h))
]

same_bytes_refl : (xs : List ℕ) → same_bytes xs xs ≡ true
unfolding same_bytes
same_bytes_refl [] = refl
same_bytes_refl (x ∷ xs) =
    let same : (x == x) ≡ true = ground arith in rw (same, if◌then◌else◌) (same_bytes_refl xs)

equal_iff : (self target : ElemValue) → (equal self target ≡ true) ↔ (self.bytes ≡ target.bytes)
unfolding equal
equal_iff self target = (
  (λ h. same_bytes→Path self.bytes target.bytes h),
  (λ h. ap (λ t. same_bytes self.bytes t) (sym h) ∙ same_bytes_refl self.bytes),
)

-- The parts before and behind some bytes that two lists share.
parts :
    (front front' middle back back' : List ℕ)
    → length front ≡ length front'
    → front ++ (middle ++ back) ≡ front' ++ (middle ++ back')
    → (front ≡ front') × (back ≡ back')
parts front front' middle back back' size same = (
  sym (take-append front (middle ++ back) (length front) refl)
      ∙ ap (λ t. take (length front) t) same
      ∙ take-append front' (middle ++ back') (length front) size,
  sym (drop-append middle back (length middle) refl)
      ∙ ap (λ t. drop (length middle) t)
          (sym (drop-append front (middle ++ back) (length front) refl)
            ∙ ap (λ t. drop (length front) t) same
            ∙ drop-append front' (middle ++ back') (length front) size)
      ∙ drop-append middle back' (length middle) refl,
)

-- Two objects whose values were set alike, by the setter of any array, are equal exactly where the bytes
-- before the array, which hold the identifier of the element, and those behind it are the same in both.
pub equal-set_array :
    (L : WordLayout) (at places : ℕ) (values : List ℕ) (self target : ElemValue)
    → at ≤ length self.bytes
    → at ≤ length target.bytes
    → (equal (set_array L at places values self) (set_array L at places values target) ≡ true) ↔ (
        (take at self.bytes ≡ take at target.bytes)
        × (drop (at + sizeof_array L places) self.bytes
            ≡ drop (at + sizeof_array L places) target.bytes))
equal-set_array L at places values self target inside inside' =
    let array = array_bytes L places (take places values) in
    let mine = set_array-bytes L at places values self inside in
    let others = set_array-bytes L at places values target inside' in
    let same =
      equal_iff (set_array L at places values self) (set_array L at places values target) in
    (
      (λ h.
          parts (take at self.bytes) (take at target.bytes) array
            (drop (at + sizeof_array L places) self.bytes)
            (drop (at + sizeof_array L places) target.bytes)
            (take_drop at self.bytes inside ∙ sym (take_drop at target.bytes inside'))
            (sym mine ∙ same.0 h ∙ others)),
      (λ h. same.1 (mine ∙ ap₂ (λ a b. a ++ (array ++ b)) (h.0) (h.1) ∙ sym others)),
    )
