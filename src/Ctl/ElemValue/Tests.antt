-- ===== src/Ctl/ElemValue/Tests.antt =====
-- Runs of src/ctl/elem-value.c at concrete values.
use alsa_gobject.Base.{
  ℕ, take, drop, true, List, [], ◌∷◌, replicate, padded, ◌≡◌, refl, ◌↔◌, arith, length-replicate,
}
use alsa_gobject.Ctl.ElemValue.{
  ElemValue, Layouts, set_bool, get_bool, set_int, get_int, set_enum, get_enum, set_bytes,
  get_bytes, set_iec60958_channel_status, get_iec60958_channel_status, set_iec60958_user_data,
  get_iec60958_user_data, set_int64, get_int64, set_array, equal,
}
use alsa_gobject.Ctl.ElemValue.LittleEndian.{little_endian}
use alsa_gobject.Ctl.ElemValue.RoundTrip.{getters-setters}
use alsa_gobject.Ctl.ElemValue.Comparison.{equal-set_array}

abbrev layouts : Layouts
layouts = record {
  value_at = 2;
  long = little_endian 8;
  uint = little_endian 4;
  uchar = little_endian 1;
  longlong = little_endian 8;
}

abbrev value : ElemValue
value = record { bytes = replicate 1226 9; boolean = []; integer = [] }

-- TRUE, FALSE and -1 as numbers of 32 bits.
abbrev ints : List ℕ
ints = 1 ∷ (0 ∷ (4294967295 ∷ []))

abbrev some_bytes : List ℕ
some_bytes = 255 ∷ (7 ∷ [])

getters-setters_example :
    ((get_bool layouts (set_bool layouts value ints)).1 ≡ padded 128 (1 ∷ (0 ∷ (0 ∷ []))))
    × ((get_int layouts (set_int layouts value ints)).1 ≡ padded 128 ints)
    × (get_enum layouts (set_enum layouts value ints) ≡ padded 128 ints)
    × (get_bytes layouts (set_bytes layouts value some_bytes) ≡ padded 512 some_bytes)
    × (get_iec60958_channel_status layouts (set_iec60958_channel_status layouts value some_bytes)
        ≡ padded 24 some_bytes)
    × (get_iec60958_user_data layouts (set_iec60958_user_data layouts value some_bytes)
        ≡ padded 147 some_bytes)
    × (get_int64 layouts (set_int64 layouts value ints) ≡ padded 64 ints)
getters-setters_example =
    getters-setters layouts value ints ints some_bytes ints
      (omega (arith, length-replicate {A = ℕ} 1226 9)) refl
      (omega arith, (omega arith, (omega arith, tt)))
      (omega arith, (omega arith, (omega arith, tt))) (omega arith, (omega arith, tt))
      (omega arith, (omega arith, (omega arith, tt)))

-- The first two bytes stand for the identifier.
abbrev other : ElemValue
other = record { bytes = 1 ∷ (2 ∷ (3 ∷ (4 ∷ []))); boolean = []; integer = [] }

abbrev twin : ElemValue
twin = record { bytes = 1 ∷ (5 ∷ (6 ∷ (4 ∷ []))); boolean = []; integer = [] }

equal-set_array_example :
    (equal
        (set_array (little_endian 1) 2 1 (7 ∷ []) other)
        (set_array (little_endian 1) 2 1 (7 ∷ []) twin)
      ≡ true)
    ↔ ((take 2 other.bytes ≡ take 2 twin.bytes) × (drop 3 other.bytes ≡ drop 3 twin.bytes))
equal-set_array_example =
    equal-set_array (little_endian 1) 2 1 (7 ∷ []) other twin (omega arith) (omega arith)
