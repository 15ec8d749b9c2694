-- ===== src/Ctl/ElemValue/Neighbours.antt =====
-- Two arrays of src/ctl/elem-value.c that stand one behind the other.
use alsa_gobject.Base.{
  ℕ, ◌+◌, ◌≤◌, ◌≡◌, sym, ap, ◌∙◌, List, ◌++◌, take, drop, length, padded, arith, append_assoc,
  length-append, take-append, drop-append, padded-take,
}
use alsa_gobject.Ctl.ElemValue.{WordLayout, ElemValue, sizeof_array, load, set_array}
use alsa_gobject.Ctl.ElemValue.Arrays.{Words, array_bytes, length-array_bytes, load-array_bytes}
use alsa_gobject.Ctl.ElemValue.Setters.{take_drop, Words-take, set_array-bytes}

module _ (L : WordLayout) (at n m : ℕ) (vs us : List ℕ) (self : ElemValue)
    (inside : at + sizeof_array L n ≤ length self.bytes) where
  pub first-second :
      Words L vs
      → load L n at (set_array L (at + sizeof_array L n) m us (set_array L at n vs self)).bytes
        ≡ padded n vs
  first-second words =
      let gap = sizeof_array L n in
      let first = set_array L at n vs self in
      let front = take at self.bytes in
      let array = array_bytes L n (take n vs) in
      let behind = drop (at + gap) self.bytes in
      let low : at ≤ length self.bytes = omega arith in
      let here : length front ≡ at = take_drop at self.bytes low in
      let bytes : first.bytes ≡ (front ++ array) ++ behind =
        set_array-bytes L at n vs self low ∙ sym (append_assoc front array behind) in
      let both : length (front ++ array) ≡ at + gap =
        omega (arith, length-append front array, length-array_bytes L n (take n vs), here) in
      let room : at + gap ≤ length first.bytes =
        omega (arith, ap (λ t. length t) bytes, length-append (front ++ array) behind, both) in
      let head : take (at + gap) first.bytes ≡ front ++ array =
        ap (λ t. take (at + gap) t) bytes
        ∙ take-append (front ++ array) behind (at + gap) (sym both) in
      let rest = array_bytes L m (take m us) ++ drop (at + gap + sizeof_array L m) first.bytes in
      ap (λ t. load L n at t)
        (set_array-bytes L (at + gap) m us first room
          ∙ ap (λ t. t ++ rest) head
          ∙ append_assoc front array rest)
      ∙ load-array_bytes L (take n vs) n at front rest (Words-take L n vs words) (sym here)
      ∙ padded-take n vs

  pub second-first :
      Words L us
      → load L m
          (at + sizeof_array L n)
          (set_array L at n vs (set_array L (at + sizeof_array L n) m us self)).bytes
        ≡ padded m us
  second-first words =
      let gap = sizeof_array L n in
      let second = set_array L (at + gap) m us self in
      let front = take (at + gap) self.bytes in
      let array = array_bytes L m (take m us) in
      let behind = drop (at + gap + sizeof_array L m) self.bytes in
      let here : length front ≡ at + gap = take_drop (at + gap) self.bytes inside in
      let bytes : second.bytes ≡ front ++ (array ++ behind) =
        set_array-bytes L (at + gap) m us self inside in
      let room : at ≤ length second.bytes =
        omega (arith, ap (λ t. length t) bytes, length-append front (array ++ behind), here) in
      let tail : drop (at + gap) second.bytes ≡ array ++ behind =
        ap (λ t. drop (at + gap) t) bytes
        ∙ drop-append front (array ++ behind) (at + gap) (sym here) in
      let head = take at second.bytes in
      let middle = array_bytes L n (take n vs) in
      let both : length (head ++ middle) ≡ at + gap = omega (
        arith,
        length-append head middle,
        length-array_bytes L n (take n vs),
        take_drop at second.bytes room,
      ) in
      ap (λ t. load L m (at + gap) t)
        (set_array-bytes L at n vs second room
          ∙ ap (λ t. head ++ (middle ++ t)) tail
          ∙ sym (append_assoc head middle (array ++ behind)))
      ∙ load-array_bytes L (take m us) m (at + gap) (head ++ middle) behind
          (Words-take L m us words) (sym both)
      ∙ padded-take m us
