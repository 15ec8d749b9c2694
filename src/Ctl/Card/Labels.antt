-- ===== src/Ctl/Card/Labels.antt =====
-- src/ctl/card.c: the labels of an enumerated element. To the driver they go as one block of bytes, in
-- which each label ends with a zero byte; from the driver each one comes by a request of its own.
pub mod Block
use alsa_gobject.Base.{
  ℕ, zero, suc, ◌+◌, ◌*◌, ◌%◌, ◌^◌, Bool, true, false, if◌then◌else◌, ltb, leb, Option, none, some,
  List, [], ◌∷◌, ◌++◌, length,
}
use alsa_gobject.Platform.{Platform, Reply, answer, errno, local, Ended, success, failure}
use alsa_gobject.Ctl.Card.{CardError, device_error}

-- The members of `struct snd_ctl_elem_info` that `prepare_enum_names` fills.
pub record EnumNames : Type 0 where
  pub names : List ℕ
  pub names_length : ℕ
  pub items : ℕ

-- The first loop: the sum of the lengths, in 32 bits, or a label that is too long.
unfoldable pub names_length : List (List ℕ) → ℕ → Option ℕ
names_length [] length = some length
names_length (label ∷ labels) sum =
    let rest = names_length labels ((sum + (length label + 1)) % 2 ^ 32) in
    if ltb (length label) 64 then rest else none

-- The second loop.
unfoldable pub write_names : List (List ℕ) → List ℕ
write_names [] = []
write_names (label ∷ labels) = label ++ (0 ∷ write_names labels)

unfoldable pub prepare_enum_names : List (List ℕ) → Option EnumNames
prepare_enum_names labels = elim (names_length labels 0) [
  | none ↦ none
  | some n ↦
      if leb n (64 * 1024)
      then some (record { names = write_names labels; names_length = n; items = length labels })
      else none
]

module _ (p : Platform) (elem_name : ℕ → Reply (List ℕ)) where
  -- The loop from the label `i` on, with `todo` labels left; the counter is an `int`, whose overflow behind
  -- 2^31 labels is left out. `elem_name` is the request with
  -- `value.enumerated.item` set.
  unfoldable pub parse_from : ℕ → ℕ → Ended CardError (List (List ℕ))
  parse_from i zero = success []
  parse_from i (suc todo) =
      let rest = parse_from (suc i) todo in
      elim (elem_name i) [
        | errno e ↦ failure (some (local (device_error p e)))
        | answer label ↦ elim rest [
          | success labels ↦ success (label ∷ labels)
          | failure e ↦ failure e
        ]
      ]

  unfoldable pub parse_enum_names : ℕ → Ended CardError (List (List ℕ))
  parse_enum_names items = parse_from 0 items
