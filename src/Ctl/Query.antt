-- ===== src/Ctl/Query.antt =====
-- src/ctl/query.c: queries to libudev for cards and their control devices.
use alsa_gobject.Base.{ℕ, Option, List}
use alsa_gobject.Platform.{Platform, Reply, Ended, Outcome}
use alsa_gobject.Descriptor.{NoCode, look_up}
use alsa_gobject.Utils.Sysfs.{Device, generate_sysnum_list_by_sysname_prefix, sysnum_outcome}
use alsa_gobject.Utils.Names.{
  card_sysname_prefix, card_sysname, control_sysname, lookup_and_allocate_sysname_by_sysname,
  lookup_and_allocate_devname_by_sysname,
}

module _ (p : Platform) where
  unfoldable pub get_card_id_list :
      ((ℕ → ℕ → ℕ) → List ℕ → List ℕ)
      → Reply (List (Reply Device))
      → Outcome NoCode (Option (List ℕ))
  get_card_id_list qsort entries =
      sysnum_outcome p (generate_sysnum_list_by_sysname_prefix p qsort entries card_sysname_prefix)

  unfoldable pub get_card_sysname : (List ℕ → Reply Device) → ℕ → Ended NoCode (List ℕ)
  get_card_sysname nodes card_id =
      look_up p (lookup_and_allocate_sysname_by_sysname nodes (card_sysname card_id))

  unfoldable pub get_control_sysname : (List ℕ → Reply Device) → ℕ → Ended NoCode (List ℕ)
  get_control_sysname nodes card_id =
      look_up p (lookup_and_allocate_sysname_by_sysname nodes (control_sysname card_id))

  unfoldable pub get_control_devnode : (List ℕ → Reply Device) → ℕ → Ended NoCode (List ℕ)
  get_control_devnode nodes card_id =
      look_up p (lookup_and_allocate_devname_by_sysname nodes (control_sysname card_id))
