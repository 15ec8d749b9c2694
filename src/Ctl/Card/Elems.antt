-- ===== src/Ctl/Card/Elems.antt =====
-- src/ctl/card.c: the calls for one element, and those that add or replace elements of the user.
pub mod Added
use alsa_gobject.Base.{
  ℕ, zero, suc, ◌+◌, ◌-◌, ◌%◌, ◌^◌, Bool, true, false, ◌&&◌, ◌||◌, not, if◌then◌else◌, ◌==◌, leb,
  ltb, Option, none, some, List, [], ◌∷◌,
}
use alsa_gobject.Platform.{Platform, Reply, answer, errno, local, Ended, success, failure}
use alsa_gobject.Ctl.Card.{
  CardError, failed, disconnected, elem_not_found, elem_not_supported, elem_owned, elem_exist,
  ElemId, conclude, elem_error, elem_error_or,
}
use alsa_gobject.Ctl.Card.Labels.{EnumNames, prepare_enum_names, parse_enum_names}

-- `ALSACtlElemType`; the last is a number that is none of the types the functions handle.
pub data ElemType : Type 0 where
  boolean integer enumerated bytes iec60958 integer64 other : ElemType

-- The range of an integer element as words of two's complement.
pub record Range : Type 0 where
  pub min : ℕ
  pub max : ℕ
  pub step : ℕ

-- The members of `struct snd_ctl_elem_info` that the functions read or write.
pub record ElemInfo : Type 0 where
  pub id : ElemId
  pub kind : ElemType
  pub access : ℕ
  pub count : ℕ
  pub owner : ℕ
  pub range : Range
  pub enumerated : Option EnumNames

-- The comparison of signed words of `w` bits.
abbrev pub signed_leb : ℕ → ℕ → ℕ → Bool
signed_leb w a b = leb ((a + 2 ^ (w - 1)) % 2 ^ w) ((b + 2 ^ (w - 1)) % 2 ^ w)

-- The checks of a range: `min + step` wraps around.
abbrev pub is_range : ℕ → Range → Bool
is_range w r =
    let min = r.min % 2 ^ w in
    let max = r.max % 2 ^ w in
    let step = r.step % 2 ^ w in signed_leb w min max && signed_leb w ((min + step) % 2 ^ w) max

-- The switch over the type: the integers are read into variables of 32 bits.
unfoldable pub accepts : ElemType → Range → Bool
accepts boolean r = true
accepts integer r = is_range 32 r
accepts enumerated r = true
accepts bytes r = true
accepts iec60958 r = true
accepts integer64 r = is_range 64 r
accepts other r = false

-- The loop at the end: `elem_count` identifiers, each with both numbers one further.
unfoldable pub entries_from : ElemId → ℕ → List ElemId
entries_from src zero = []
entries_from src (suc n) =
    src
    ∷ entries_from
        (record src { numid = (src.numid + 1) % 2 ^ 32; index = (src.index + 1) % 2 ^ 32 }) n

abbrev pub type_number : ElemType → ℕ
type_number other = 0
type_number boolean = 1
type_number integer = 2
type_number enumerated = 3
type_number bytes = 4
type_number iec60958 = 5
type_number integer64 = 6

-- The checks behind the switch: the type of the structure is that of the object, and neither the
-- access nor the count is zero.
abbrev pub is_complete : ElemType → ElemInfo → Bool
is_complete elem_type info =
    (type_number info.kind == type_number elem_type) && (ltb 0 info.access && ltb 0 info.count)

-- The names that go with the request: those of the labels, or none for another type.
unfoldable pub prepared : ElemType → List (List ℕ) → Option (Option EnumNames)
prepared enumerated labels = elim (prepare_enum_names labels) [
  | none ↦ none
  | some names ↦ some (some names)
]
prepared boolean labels = some none
prepared integer labels = some none
prepared bytes labels = some none
prepared iec60958 labels = some none
prepared integer64 labels = some none
prepared other labels = some none

module _ (p : Platform) where
  unfoldable pub lock_error : Bool → ℕ → CardError
  lock_error lock e =
      if e == p.enodev
      then disconnected
      else (if e == p.enoent
          then elem_not_found
          else (if ((e == p.ebusy) && lock) || ((e == p.eperm) && not lock)
              then elem_owned
              else failed))

  unfoldable pub lock_elem :
      (ElemId → Reply (Unit {0}))
      → (ElemId → Reply (Unit {0}))
      → ElemId
      → Bool
      → Ended CardError (Unit {0})
  lock_elem elem_lock elem_unlock id lock =
      conclude (lock_error lock) (λ t. t) (if lock then elem_lock id else elem_unlock id)

  -- What goes into the new object: the structure, with the labels of an enumerated element.
  unfoldable pub get_elem_info :
      (ElemId → Reply (ElemInfo × ℕ))
      → (ElemInfo → ℕ → Reply (List ℕ))
      → ElemId
      → Ended CardError (ElemInfo × List (List ℕ))
  get_elem_info elem_info elem_name id = elim (elem_info id) [
    | errno e ↦ failure (some (local (elem_error p e)))
    | answer (data', items) ↦ elim (data'.kind) [
      | boolean ↦ success (data', [])
      | integer ↦ success (data', [])
      | bytes ↦ success (data', [])
      | iec60958 ↦ success (data', [])
      | integer64 ↦ success (data', [])
      | enumerated ↦ elim (parse_enum_names p (elem_name data') items) [
        | failure e ↦ failure e
        | success labels ↦ success (data', labels)
      ]
      | other ↦ failure none
    ]
  ]

  unfoldable pub add_or_replace_error : Bool → ℕ → CardError
  add_or_replace_error replace e =
      if e == p.enodev
      then disconnected
      else (if e == p.enoent
          then elem_not_found
          else (if e == p.ebusy then (if replace then elem_owned else elem_exist) else failed))

  -- `request` is `SNDRV_CTL_IOCTL_ELEM_ADD` or `_REPLACE`: it leaves the identifier of the first
  -- element in the structure. `elem_type` and `labels` are the properties of `elem_info`.
  unfoldable pub add_or_replace_elems :
      (Bool → ElemInfo → Reply ElemId)
      → ElemId
      → ℕ
      → ElemType
      → ElemInfo
      → List (List ℕ)
      → Bool
      → Ended CardError (List ElemId)
  add_or_replace_elems request id elem_count elem_type info labels replace =
      if accepts elem_type info.range && is_complete elem_type info
      then (elim (prepared elem_type labels) [
        | none ↦ failure none
        | some names ↦
            elim (request replace
              (record info { id = id; owner = elem_count; enumerated = names })) [
                | errno e ↦ failure (some (local (add_or_replace_error replace e)))
                | answer first ↦ success (entries_from first elem_count)
              ]
      ])
      else failure none

  unfoldable pub add_elems :
      (Bool → ElemInfo → Reply ElemId)
      → ElemId
      → ℕ
      → ElemType
      → ElemInfo
      → List (List ℕ)
      → Ended CardError (List ElemId)
  add_elems request id elem_count elem_type info labels =
      if ltb 0 elem_count
      then add_or_replace_elems request id elem_count elem_type info labels false
      else failure none

  unfoldable pub replace_elems :
      (Bool → ElemInfo → Reply ElemId)
      → ElemId
      → ℕ
      → ElemType
      → ElemInfo
      → List (List ℕ)
      → Ended CardError (List ElemId)
  replace_elems request id elem_count elem_type info labels =
      if ltb 0 elem_count
      then add_or_replace_elems request id elem_count elem_type info labels true
      else failure none

  -- The value of an element: `Value` is the storage of `struct snd_ctl_elem_value` but for the
  -- identifier.
  module _ {Value : Type 0} where
    unfoldable pub write_elem_value :
        (ElemId → Value → Reply (Unit {0})) → ElemId → Value → Ended CardError (Unit {0})
    write_elem_value elem_write id value =
        conclude (elem_error_or p p.eperm elem_not_supported) (λ t. t) (elem_write id value)

    unfoldable pub read_elem_value :
        (ElemId → Value → Reply Value) → ElemId → Value → Ended CardError Value
    read_elem_value elem_read id value =
        conclude (elem_error_or p p.eperm elem_not_supported) (λ v. v) (elem_read id value)
