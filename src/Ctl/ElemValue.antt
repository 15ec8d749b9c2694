-- ===== src/Ctl/ElemValue.antt =====
-- src/ctl/elem-value.c: the values of an element. The arrays for the types of element share the same
-- bytes of `struct snd_ctl_elem_value`; how words stand in bytes is a parameter, and so is where the
-- union of the arrays begins. A signed number is a word of its width.
mod Tests
pub mod LittleEndian
pub mod Arrays
pub mod Setters
pub mod Neighbours
pub mod RoundTrip
pub mod Comparison
use alsa_gobject.Base.{
  ℕ, zero, suc, ◌+◌, ◌-◌, ◌*◌, ◌%◌, ◌^◌, ◌<◌, ◌≡◌, Bool, true, false, ◌&&◌, if◌then◌else◌, ◌==◌,
  ltb, List, [], ◌∷◌, ◌++◌, map, take, drop, length, replicate,
}

-- How a word of some bytes is stored.
pub record WordLayout : Type 0 where
  pub size : ℕ
  pub encode : ℕ → List ℕ
  pub decode : List ℕ → ℕ
  pub length-encode : (v : ℕ) → length (encode v) ≡ size
  pub decode-encode : (v : ℕ) → v < 2 ^ (8 * size) → decode (encode v) ≡ v
  pub decode-zeros : decode (replicate size 0) ≡ 0

-- `ALSACtlElemValuePrivate`: the bytes of `struct snd_ctl_elem_value`, and the two arrays that are
-- filled when they are asked for.
pub record ElemValue : Type 0 where
  pub bytes : List ℕ
  pub boolean : List ℕ
  pub integer : List ℕ

-- The layouts of `long`, `unsigned int`, `unsigned char` and `long long`.
pub record Layouts : Type 0 where
  pub value_at : ℕ
  pub long : WordLayout
  pub uint : WordLayout
  pub uchar : WordLayout
  pub longlong : WordLayout

-- Bytes are written over those from a place on.
abbrev pub splice : List ℕ → ℕ → List ℕ → List ℕ
splice mem at bs = take at mem ++ (bs ++ drop (at + length bs) mem)

abbrev pub sizeof_array : WordLayout → ℕ → ℕ
sizeof_array L zero = 0
sizeof_array L (suc n) = L.size + sizeof_array L n

-- The loop that stores the values of an array.
unfoldable pub store : WordLayout → ℕ → List ℕ → List ℕ → List ℕ
store L at [] mem = mem
store L at (v ∷ vs) mem = store L (at + L.size) vs (splice mem at (L.encode v))

-- The words of an array.
unfoldable pub load : WordLayout → ℕ → ℕ → List ℕ → List ℕ
load L zero at mem = []
load L (suc n) at mem = L.decode (take L.size (drop at mem)) ∷ load L n (at + L.size) mem

-- What the setters have in common: the array is cleared, and as many values are stored as there are
-- places.
unfoldable pub set_array : WordLayout → ℕ → ℕ → List ℕ → ElemValue → ElemValue
set_array L at places values self = record self {
  bytes =
      store L at (take places values)
        (splice (self.bytes) at (replicate (sizeof_array L places) 0));
}

-- A number of 32 bits as one of 64 bits: the sign is carried on.
abbrev pub sign_extend : ℕ → ℕ
sign_extend v = if ltb v (2 ^ 31) then v else v + (2 ^ 64 - 2 ^ 32)

-- Whether a signed number of 64 bits is positive, as a `gboolean`.
abbrev pub is_positive : ℕ → ℕ
is_positive v = if ltb 0 v && ltb v (2 ^ 63) then 1 else 0

module _ (M : Layouts) where
  unfoldable pub set_bool : ElemValue → List ℕ → ElemValue
  set_bool self values = set_array (M.long) (M.value_at) 128 (map sign_extend values) self

  -- The object with its own array filled, and that array.
  unfoldable pub get_bool : ElemValue → ElemValue × List ℕ
  get_bool self =
      let values = map is_positive (load (M.long) 128 (M.value_at) (self.bytes)) in
      (record self { boolean = values }, values)

  unfoldable pub set_int : ElemValue → List ℕ → ElemValue
  set_int self values = set_array (M.long) (M.value_at) 128 (map sign_extend values) self

  unfoldable pub get_int : ElemValue → ElemValue × List ℕ
  get_int self =
      let values = map (λ v. v % 2 ^ 32) (load (M.long) 128 (M.value_at) (self.bytes)) in
      (record self { integer = values }, values)

  unfoldable pub set_enum : ElemValue → List ℕ → ElemValue
  set_enum self values = set_array (M.uint) (M.value_at) 128 values self

  unfoldable pub get_enum : ElemValue → List ℕ
  get_enum self = load (M.uint) 128 (M.value_at) (self.bytes)

  unfoldable pub set_bytes : ElemValue → List ℕ → ElemValue
  set_bytes self values = set_array (M.uchar) (M.value_at) 512 values self

  unfoldable pub get_bytes : ElemValue → List ℕ
  get_bytes self = load (M.uchar) 512 (M.value_at) (self.bytes)

  -- `struct snd_aes_iec958` has 24 bytes of status, and 147 bytes of subcode behind them.
  unfoldable pub set_iec60958_channel_status : ElemValue → List ℕ → ElemValue
  set_iec60958_channel_status self status = set_array (M.uchar) (M.value_at) 24 status self

  unfoldable pub get_iec60958_channel_status : ElemValue → List ℕ
  get_iec60958_channel_status self = load (M.uchar) 24 (M.value_at) (self.bytes)

  unfoldable pub set_iec60958_user_data : ElemValue → List ℕ → ElemValue
  set_iec60958_user_data self data_bytes =
      set_array (M.uchar) (M.value_at + sizeof_array M.uchar 24) 147 data_bytes self

  unfoldable pub get_iec60958_user_data : ElemValue → List ℕ
  get_iec60958_user_data self =
      load (M.uchar) 147 (M.value_at + sizeof_array M.uchar 24) (self.bytes)

  unfoldable pub set_int64 : ElemValue → List ℕ → ElemValue
  set_int64 self values = set_array (M.longlong) (M.value_at) 64 values self

  unfoldable pub get_int64 : ElemValue → List ℕ
  get_int64 self = load (M.longlong) 64 (M.value_at) (self.bytes)

-- `memcmp` of the structures of the two objects, which have the same size.
unfoldable pub same_bytes : List ℕ → List ℕ → Bool
same_bytes [] [] = true
same_bytes [] (y ∷ ys) = false
same_bytes (x ∷ xs) [] = false
same_bytes (x ∷ xs) (y ∷ ys) = if x == y then same_bytes xs ys else false

unfoldable pub equal : ElemValue → ElemValue → Bool
equal self target = same_bytes (self.bytes) (target.bytes)
