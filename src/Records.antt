-- ===== src/Records.antt =====
-- Records of one size that stand one behind another in the bytes that a `read` gives: how they are
-- laid out is the compiler's matter, so `image` and `parse` are parameters.
use alsa_gobject.Base.{
  ℕ, ◌+◌, ◌<◌, ◌≤◌, ◌≡◌, sym, true, leb, le→leb, List, [], ◌∷◌, ◌++◌, append_assoc, length, drop,
  length-append, drop-append, arith,
}

pub record RecordLayout (A : Type 0) : Type 0 where
  pub size : ℕ
  pub image : A → List ℕ
  pub parse : List ℕ → A
  pub size_pos : 0 < size
  pub length-image : (a : A) → length (image a) ≡ size
  pub parse-image : (a : A) (rest : List ℕ) → parse (image a ++ rest) ≡ a

module _ {A : Type 0} (L : RecordLayout A) where
  abbrev pub images : List A → List ℕ
  images [] = []
  images (a ∷ records) = L.image a ++ images records

  -- What a loop over the records meets at one of them.
  pub split_record :
      (a : A) (records : List A) (rest : List ℕ) (len : ℕ)
      → length (images (a ∷ records)) ≤ len
      → (leb L.size len ≡ true)
        × (L.parse (images (a ∷ records) ++ rest) ≡ a)
        × (drop L.size (images (a ∷ records) ++ rest) ≡ images records ++ rest)
        × (length (images (a ∷ records)) ≡ L.size + length (images records))
  split_record a records rest len enough =
      let total = length-append (L.image a) (images records) in
      let size = L.length-image a in
      (
        le→leb L.size len (omega (arith, total, size)),
        rw (append_assoc (L.image a) (images records) rest)
            (L.parse-image a (images records ++ rest)),
        rw (append_assoc (L.image a) (images records) rest)
            (drop-append (L.image a) (images records ++ rest) L.size (sym size)),
        omega (arith, total, size),
      )
