-- ===== src/Hwdep/Tests.antt =====
-- A run of src/hwdep at concrete values.
use alsa_gobject.Base.{some, [], ◌∷◌, ◌≡◌, refl, map, arith}
use alsa_gobject.Samples.{platform}
use alsa_gobject.Platform.{answer, ended, success}
use alsa_gobject.Utils.Sysfs.Numbers.{Node, device}
use alsa_gobject.Utils.Names.{hwdep_sysname}
use alsa_gobject.Hwdep.{get_device_id_list}
use alsa_gobject.Hwdep.OtherCards.{get_device_id_list-other_card}

-- The device 3 of the card 10.
abbrev other : Node
other = record { name = hwdep_sysname 10 3; digit = 3; digits = [] }

get_device_id_list-other_card_example :
    get_device_id_list platform (λ compare entries. entries) (answer (map device (other ∷ []))) 1
    ≡ ended (success (some (3 ∷ [])))
get_device_id_list-other_card_example =
    get_device_id_list-other_card platform (λ compare entries. entries) 1 0 3 other [] (omega arith)
      (omega arith) (omega arith) refl ((omega arith, tt), omega arith, tt)
