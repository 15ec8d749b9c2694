-- ===== src/Rawmidi/Query.antt =====
-- src/rawmidi/query.c: queries to libudev and to the control device of a card. A node of libudev and the
-- control device are parameters.
use alsa_gobject.Base.{ℕ, zero, suc, Option, some, List, [], ◌∷◌}
use alsa_gobject.Platform.{
  Platform, Reply, answer, errno, Ended, success, failure, Outcome, generate_file_error,
}
use alsa_gobject.Descriptor.{NoCode, look_up}
use alsa_gobject.Utils.Ioctl.{Call, Control, request_ctl_ioctl}
use alsa_gobject.Utils.Sysfs.{Device, generate_sysnum_list_by_sysname_prefix, sysnum_outcome}
use alsa_gobject.Utils.Names.{
  rawmidi_sysname_prefix, rawmidi_sysname, lookup_and_allocate_sysname_by_sysname,
  lookup_and_allocate_devname_by_sysname,
}

-- The members of `struct snd_rawmidi_info` that a query sets.
pub record SubstreamId : Type 0 where
  pub card : ℕ
  pub device : ℕ
  pub subdevice : ℕ
  pub stream : ℕ

-- The numbers from one on.
unfoldable pub count_up : ℕ → ℕ → List ℕ
count_up zero i = []
count_up (suc left) i = i ∷ count_up left (suc i)

module _ (p : Platform) where
  unfoldable pub get_device_id_list :
      ((ℕ → ℕ → ℕ) → List ℕ → List ℕ)
      → Reply (List (Reply Device))
      → ℕ
      → Outcome NoCode (Option (List ℕ))
  get_device_id_list qsort entries card_id =
      sysnum_outcome p
        (generate_sysnum_list_by_sysname_prefix p qsort entries (rawmidi_sysname_prefix card_id))

  unfoldable pub get_rawmidi_sysname : (List ℕ → Reply Device) → ℕ → ℕ → Ended NoCode (List ℕ)
  get_rawmidi_sysname nodes card_id device_id =
      look_up p (lookup_and_allocate_sysname_by_sysname nodes (rawmidi_sysname card_id device_id))

  unfoldable pub get_rawmidi_devnode : (List ℕ → Reply Device) → ℕ → ℕ → Ended NoCode (List ℕ)
  get_rawmidi_devnode nodes card_id device_id =
      look_up p (lookup_and_allocate_devname_by_sysname nodes (rawmidi_sysname card_id device_id))

  -- The request gives the number of the subdevices.
  unfoldable pub get_subdevice_id_list :
      (SubstreamId → Control ℕ) → ℕ → ℕ → ℕ → List Call × Ended NoCode (List ℕ)
  get_subdevice_id_list control card_id device_id direction =
      let id : SubstreamId = record {
        card = card_id;
        device = device_id;
        subdevice = 0;
        stream = direction;
      } in
      let (calls, err) = request_ctl_ioctl (control id) card_id in
      elim err [
        | errno e ↦ (calls, failure (some (generate_file_error p e)))
        | answer subdevices_count ↦ (calls, success (count_up subdevices_count 0))
      ]

  unfoldable pub get_substream_info :
      {Info : Type 0} → (SubstreamId → Control Info) → ℕ → ℕ → ℕ → ℕ → List Call × Ended NoCode Info
  get_substream_info control card_id device_id direction subdevice_id =
      let id : SubstreamId = record {
        card = card_id;
        device = device_id;
        subdevice = subdevice_id;
        stream = direction;
      } in
      let (calls, err) = request_ctl_ioctl (control id) card_id in (calls, look_up p err)
