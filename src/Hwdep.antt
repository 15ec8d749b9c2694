-- ===== src/Hwdep.antt =====
-- The library for ALSA Hwdep: src/hwdep/query.c. A node of libudev and the control device are parameters.
pub mod OtherCards
mod Tests
use alsa_gobject.Base.{ℕ, Option, List}
use alsa_gobject.Platform.{Platform, Reply, Ended, Outcome}
use alsa_gobject.Descriptor.{NoCode, look_up}
use alsa_gobject.Utils.Ioctl.{Call, Control, request_ctl_ioctl}
use alsa_gobject.Utils.Sysfs.{Device, generate_sysnum_list_by_sysname_prefix, sysnum_outcome}
use alsa_gobject.Utils.Names.{
  hwdep_sysname_prefix, hwdep_sysname, lookup_and_allocate_sysname_by_sysname,
  lookup_and_allocate_devname_by_sysname,
}

module _ (p : Platform) where
  unfoldable pub get_device_id_list :
      ((ℕ → ℕ → ℕ) → List ℕ → List ℕ)
      → Reply (List (Reply Device))
      → ℕ
      → Outcome NoCode (Option (List ℕ))
  get_device_id_list qsort entries card_id =
      sysnum_outcome p
        (generate_sysnum_list_by_sysname_prefix p qsort entries (hwdep_sysname_prefix card_id))

  unfoldable pub get_hwdep_sysname : (List ℕ → Reply Device) → ℕ → ℕ → Ended NoCode (List ℕ)
  get_hwdep_sysname nodes card_id device_id =
      look_up p (lookup_and_allocate_sysname_by_sysname nodes (hwdep_sysname card_id device_id))

  unfoldable pub get_hwdep_devnode : (List ℕ → Reply Device) → ℕ → ℕ → Ended NoCode (List ℕ)
  get_hwdep_devnode nodes card_id device_id =
      look_up p (lookup_and_allocate_devname_by_sysname nodes (hwdep_sysname card_id device_id))

  -- The request is for the device with this number of the card.
  unfoldable pub get_device_info :
      {Info : Type 0} → (ℕ → Control Info) → ℕ → ℕ → List Call × Ended NoCode Info
  get_device_info control card_id device_id =
      let (calls, err) = request_ctl_ioctl (control device_id) card_id in (calls, look_up p err)
