-- ===== src/Utils/Names.antt =====
-- src/utils/utils.h: the names of the nodes of cards and devices. A text is the bytes before its zero
-- byte. Memory for a text can be allocated here.
pub mod Prefixes
use alsa_gobject.Base.{ℕ, zero, suc, ◌+◌, ◌/◌, ◌%◌, if◌then◌else◌, ltb, List, [], ◌∷◌, ◌++◌}
use alsa_gobject.Platform.{Platform, Reply, answer, errno, Ended, success, failure}
use alsa_gobject.Descriptor.{NoCode, look_up}
use alsa_gobject.Utils.Sysfs.{Device, lookup_and_allocate_string_by_sysname}

-- The conversion `%u` of `vsnprintf`, with the number of digits at most.
unfoldable pub decimal_text : ℕ → ℕ → List ℕ
decimal_text zero n = []
decimal_text (suc fuel) n =
    let high = decimal_text fuel (n / 10) in
    if ltb n 10 then (n + 48) ∷ [] else high ++ ((n % 10 + 48) ∷ [])

-- A number of 32 bits has 10 digits at most.
abbrev pub number_text : ℕ → List ℕ
number_text n = decimal_text 10 n

-- "card"
abbrev pub card_sysname_prefix : List ℕ
card_sysname_prefix = 99 ∷ (97 ∷ (114 ∷ (100 ∷ [])))

-- "card%u", "controlC%u", "timer", "seq"
unfoldable pub card_sysname : ℕ → List ℕ
card_sysname card_id = card_sysname_prefix ++ number_text card_id

unfoldable pub control_sysname : ℕ → List ℕ
control_sysname card_id =
    99 ∷ (111 ∷ (110 ∷ (116 ∷ (114 ∷ (111 ∷ (108 ∷ (67 ∷ number_text card_id)))))))

-- "midiC%u" and "midiC%uD%u"
unfoldable pub rawmidi_sysname_prefix : ℕ → List ℕ
rawmidi_sysname_prefix card_id = 109 ∷ (105 ∷ (100 ∷ (105 ∷ (67 ∷ number_text card_id))))

unfoldable pub rawmidi_sysname : ℕ → ℕ → List ℕ
rawmidi_sysname card_id device_id = rawmidi_sysname_prefix card_id ++ (68 ∷ number_text device_id)

-- "hwC%u" and "hwC%uD%u"
unfoldable pub hwdep_sysname_prefix : ℕ → List ℕ
hwdep_sysname_prefix card_id = 104 ∷ (119 ∷ (67 ∷ number_text card_id))

unfoldable pub hwdep_sysname : ℕ → ℕ → List ℕ
hwdep_sysname card_id device_id = hwdep_sysname_prefix card_id ++ (68 ∷ number_text device_id)

module _ (from_sysname : List ℕ → Reply Device) where
  unfoldable pub lookup_and_allocate_sysname_by_sysname : List ℕ → Reply (List ℕ)
  lookup_and_allocate_sysname_by_sysname name =
      lookup_and_allocate_string_by_sysname from_sysname name (λ device. device.sysname)

  unfoldable pub lookup_and_allocate_devname_by_sysname : List ℕ → Reply (List ℕ)
  lookup_and_allocate_devname_by_sysname name =
      lookup_and_allocate_string_by_sysname from_sysname name (λ device. device.devnode)
