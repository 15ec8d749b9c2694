-- ===== src/Utils/Sysfs.antt =====
-- src/utils/sysfs.c, and its callers in src/utils/utils.h: names and numbers of the nodes under the
-- sound subsystem. What libudev finds is a parameter: a failure of it carries the error number. `qsort`
-- is a parameter as well. A text is the bytes before its zero byte.
pub mod Numbers
use alsa_gobject.Base.{
  ℕ, zero, suc, ◌+◌, ◌%◌, ◌^◌, Bool, true, false, if◌then◌else◌, ◌==◌, ltb, Option, none, some,
  List, [], ◌∷◌, ◌++◌, length,
}
use alsa_gobject.Platform.{Platform, Reply, answer, errno, Outcome, fault, ended}
use alsa_gobject.Descriptor.{NoCode, look_up}
use alsa_gobject.Utils.Strings.{long_from_string}

-- `struct udev_device`: what the getters of libudev give, the number of the node in the memory of its
-- text.
pub record Device : Type 0 where
  pub sysname : Reply (List ℕ)
  pub devnode : Reply (List ℕ)
  pub sysnum : Option (List ℕ)

-- Whether `strstr` finds the prefix at the start of the name.
unfoldable pub starts_with : List ℕ → List ℕ → Bool
starts_with [] name = true
starts_with (c ∷ cs) [] = false
starts_with (c ∷ cs) (d ∷ ds) = if c == d then starts_with cs ds else false

-- The function that `qsort` is given; -1 is not among its results.
unfoldable pub compare_u32 : ℕ → ℕ → ℕ
compare_u32 x y = if ltb y x then 1 else 0

-- A name of the node with the name `sysname` by one of the getters.
unfoldable pub lookup_and_allocate_string_by_sysname :
    (List ℕ → Reply Device) → List ℕ → (Device → Reply (List ℕ)) → Reply (List ℕ)
lookup_and_allocate_string_by_sysname from_sysname sysname func = elim (from_sysname sysname) [
  | errno e ↦ errno e
  | answer device ↦ func device
]

module _ (p : Platform) where
  unfoldable pub detect_device : Reply Device → List ℕ → Reply Device
  detect_device (errno e) prefix = errno e
  detect_device (answer dev) prefix = elim (dev.sysname) [
    | errno e ↦ errno e
    | answer sysname ↦ if starts_with prefix sysname then answer dev else errno (p.enodev)
  ]

  -- The first loop.
  unfoldable pub count_devices : List ℕ → List (Reply Device) → ℕ
  count_devices prefix [] = 0
  count_devices prefix (entry ∷ entries) = elim (detect_device entry prefix) [
    | errno e ↦ count_devices prefix entries
    | answer dev ↦ suc (count_devices prefix entries)
  ]

  -- The second loop. A node without a number, or with another text for it, is passed over; a number of
  -- 64 bits is cut off to 32. The result is `none` where a text is read behind its memory.
  unfoldable pub read_numbers : List ℕ → List (Reply Device) → Option (List ℕ)
  read_numbers prefix [] = some []
  read_numbers prefix (entry ∷ entries) = elim (detect_device entry prefix) [
    | errno e ↦ read_numbers prefix entries
    | answer dev ↦ elim (dev.sysnum) [
      | none ↦ read_numbers prefix entries
      | some sysnum ↦ elim (long_from_string p sysnum) [
        | none ↦ none
        | some (errno e) ↦ read_numbers prefix entries
        | some (answer val) ↦ elim (read_numbers prefix entries) [
          | none ↦ none
          | some rest ↦ some (val % 2 ^ 32 ∷ rest)
        ]
      ]
    ]
  ]

  -- `entries` are what the scan finds, or its error. The result is `none` inside where the call ends
  -- without an error and stores neither the numbers nor how many there are, and outside where the
  -- behaviour is undefined.
  unfoldable pub generate_sysnum_list_by_sysname_prefix :
      ((ℕ → ℕ → ℕ) → List ℕ → List ℕ)
      → Reply (List (Reply Device))
      → List ℕ
      → Option (Reply (Option (List ℕ)))
  generate_sysnum_list_by_sysname_prefix qsort (errno e) prefix = some (errno e)
  generate_sysnum_list_by_sysname_prefix qsort (answer entries) prefix =
      let count = count_devices prefix entries in
      if count == 0 then some (answer none) else (elim (read_numbers prefix entries) [
        | none ↦ none
        | some numbers ↦
            if length numbers == count
            then some (answer (some (qsort compare_u32 numbers)))
            else some (errno (p.enodata))
      ])

  -- What the queries for a list of numbers make of it; they have no error domain of their own.
  unfoldable pub sysnum_outcome :
      Option (Reply (Option (List ℕ))) → Outcome NoCode (Option (List ℕ))
  sysnum_outcome none = fault
  sysnum_outcome (some reply) = ended (look_up p reply)
