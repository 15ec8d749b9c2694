-- ===== src/Ctl/ElemValue/Setters.antt =====
-- What the getters of src/ctl/elem-value.c give after the setters.
use alsa_gobject.Base.{
  ℕ, zero, suc, ◌+◌, ◌*◌, ◌%◌, ◌^◌, ◌<◌, ◌≤◌, ◌≡◌, refl, sym, ap, ap₂, ◌∙◌, ◌&&◌, if◌then◌else◌,
  ltb, List, [], ◌∷◌, ◌++◌, map, take, drop, length, replicate, padded, arith, length-replicate,
  length-take, padded-take,
}
use alsa_gobject.Ctl.ElemValue.{
  WordLayout, ElemValue, sizeof_array, store, load, set_array, sign_extend, is_positive,
}
use alsa_gobject.Ctl.ElemValue.Arrays.{Words, array_bytes, store-array_bytes, load-array_bytes}

pub take_drop : (n : ℕ) (xs : List ℕ) → n ≤ length xs → length (take n xs) ≡ n
take_drop n xs h = omega (arith, length-take n xs)

pub Words-take : (L : WordLayout) (n : ℕ) (vs : List ℕ) → Words L vs → Words L (take n vs)
Words-take L zero vs words = tt
Words-take L (suc n) [] words = tt
Words-take L (suc n) (v ∷ vs) (word, words) = (word, Words-take L n vs words)

-- The bytes of an object behind a setter: the array stands between what was before and behind it.
pub set_array-bytes :
    (L : WordLayout) (at places : ℕ) (values : List ℕ) (self : ElemValue)
    → at ≤ length self.bytes
    → (set_array L at places values self).bytes
      ≡ take at self.bytes
        ++ (array_bytes L places (take places values)
            ++ drop (at + sizeof_array L places) self.bytes)
unfolding set_array
set_array-bytes L at places values self inside =
    let behind = drop (at + sizeof_array L places) self.bytes in
    ap
      (λ (t : ℕ).
        store L at (take places values)
          (take at self.bytes ++ (replicate (sizeof_array L places) 0 ++ drop (at + t) self.bytes)))
      (length-replicate {A = ℕ} (sizeof_array L places) 0)
    ∙ store-array_bytes L (take places values) places at (take at self.bytes) behind
        (omega (arith, length-take places values)) (sym (take_drop at self.bytes inside))

pub load-set_array :
    (L : WordLayout) (at places : ℕ) (values : List ℕ) (self : ElemValue)
    → at ≤ length self.bytes
    → Words L values
    → load L places at (set_array L at places values self).bytes ≡ padded places values
load-set_array L at places values self inside words =
    ap (λ t. load L places at t) (set_array-bytes L at places values self inside)
    ∙ load-array_bytes L (take places values) places at (take at self.bytes)
        (drop (at + sizeof_array L places) self.bytes) (Words-take L places values words)
        (sym (take_drop at self.bytes inside))
    ∙ padded-take places values

-- Numbers of 32 bits.
abbrev pub Words32 : List ℕ → Type 0
Words32 [] = Unit
Words32 (v ∷ vs) = (v < 2 ^ 32) × Words32 vs

pub Words-sign_extend :
    (L : WordLayout) (vs : List ℕ) → L.size ≡ 8 → Words32 vs → Words L (map sign_extend vs)
Words-sign_extend L [] size words = tt
Words-sign_extend L (v ∷ vs) size (word, words) =
    let small : sign_extend v < 2 ^ (8 * 8) = ground (arith, word) in
    ((rw (size) small), Words-sign_extend L vs size words)

-- The greatest `int` and all below are positive, but for zero; as a `gboolean`.
abbrev pub truth : ℕ → ℕ
truth v = if ltb 0 v && ltb v (2 ^ 31) then 1 else 0

pub padded-map :
    (f g : ℕ → ℕ) (n : ℕ) (vs : List ℕ)
    → f 0 ≡ 0
    → ((v : ℕ) → v < 2 ^ 32 → f (sign_extend v) ≡ g v)
    → Words32 vs
    → map f (padded n (map sign_extend vs)) ≡ padded n (map g vs)
padded-map f g zero vs e h words = refl
padded-map f g (suc n) [] e h words =
    ap₂ (λ (x : ℕ) (xs : List ℕ). x ∷ xs) e (padded-map f g n [] e h tt)
padded-map f g (suc n) (v ∷ vs) e h (word, words) =
    ap₂ (λ (x : ℕ) (xs : List ℕ). x ∷ xs) (h v word) (padded-map f g n vs e h words)

pub positive-sign_extend : (v : ℕ) → v < 2 ^ 32 → is_positive (sign_extend v) ≡ truth v
positive-sign_extend v word = ground arith

pub low-sign_extend : (v : ℕ) → v < 2 ^ 32 → sign_extend v % 2 ^ 32 ≡ v
low-sign_extend v word = ground arith

pub map_id : (vs : List ℕ) → map (λ (v : ℕ). v) vs ≡ vs
map_id [] = refl
map_id (v ∷ vs) = ap (λ t. v ∷ t) (map_id vs)
