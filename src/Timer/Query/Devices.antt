-- ===== src/Timer/Query/Devices.antt =====
-- The list of the timer devices, alsatimer_get_device_id_list of src/timer/query.c.
use alsa_gobject.Base.{
  ℕ, zero, suc, ◌<◌, true, false, if◌then◌else◌, ◌==◌, none, some, List, [], ◌∷◌, ◌++◌, length, ◌≡◌,
  sym, ap, ◌∙◌, arith, append_assoc, append-nil,
}
use alsa_gobject.Platform.{
  Platform, Reply, answer, errno, Ended, ended, success, failure, generate_file_error,
}
use alsa_gobject.Descriptor.{NoCode}
use alsa_gobject.Timer.UserInstance.{DeviceId}
use alsa_gobject.Timer.Query.{timer_class_none, first_id, collect_devices, get_device_id_list}

-- The devices that the driver gives from one on, none of them of the class for no device, and its answer
-- behind the last of them.
abbrev pub Walks :
    (ℕ → DeviceId → Reply DeviceId) → ℕ → DeviceId → List DeviceId → Reply DeviceId → Type 0
Walks next call id [] last = next call id ≡ last
Walks next call id (id' ∷ ids) last =
    (next call id ≡ answer id')
    × ((id'.dev_class == timer_class_none) ≡ false)
    × Walks next (suc call) id' ids last

-- An answer that ends the walk: that there is no other device, or an error.
abbrev pub Ends : Reply DeviceId → Type 0
Ends (errno e) = Unit
Ends (answer id) = (id.dev_class == timer_class_none) ≡ true

module _ (p : Platform) (next : ℕ → DeviceId → Reply DeviceId) where
  -- The result of the call by the answer that ends the walk.
  abbrev pub walk_result : Reply DeviceId → Ended NoCode (Unit {0})
  walk_result (errno e) = failure (some (generate_file_error p e))
  walk_result (answer id) = success tt

  collect_devices-Walks :
      (ids : List DeviceId) (fuel call : ℕ) (id : DeviceId) (entries : List DeviceId)
      (last : Reply DeviceId)
      → length ids < fuel
      → Ends last
      → Walks next call id ids last
      → collect_devices p next fuel call id entries ≡ (entries ++ ids, ended (walk_result last))
  unfolding collect_devices
  collect_devices-Walks ids zero call id entries last enough ends w = absurd (omega arith)
  collect_devices-Walks [] (suc fuel) call id entries (errno e) enough ends w =
      rw (collect_devices, w)
        (ap (λ t. (t, ended (walk_result (errno e)))) (sym (append-nil entries)))
  collect_devices-Walks [] (suc fuel) call id entries (answer none_left) enough ends w =
      rw (collect_devices, w, ends)
        (ap (λ t. (t, ended (walk_result (answer none_left)))) (sym (append-nil entries)))
  collect_devices-Walks (id' ∷ ids) (suc fuel) call id entries last enough ends (now, device, w) =
      rw (collect_devices, now, device)
        (collect_devices-Walks ids fuel (suc call) id' (entries ++ (id' ∷ [])) last (omega arith)
            ends w
          ∙ ap (λ t. (t, ended (walk_result last))) (append_assoc entries (id' ∷ []) ids))

  -- Where the descriptor is opened, and the driver gives some devices one after the other and then says
  -- that there is no other or fails, the loop ends in one round more than there are devices. The call appends
  -- the devices to the list of the caller in their order, closes the descriptor once, and succeeds or
  -- reports the error of the driver; the devices stay in the list even then.
  pub get_device_id_list-Walks :
      (ids : List DeviceId) (fuel fd : ℕ) (entries : List DeviceId) (last : Reply DeviceId)
      → length ids < fuel
      → Ends last
      → Walks next 0 first_id ids last
      → get_device_id_list p fuel (record { truth = true; fd = some fd; error = none }) next entries
        ≡ (entries ++ ids, record { closed = fd ∷ []; outcome = ended (walk_result last) })
  unfolding get_device_id_list
  get_device_id_list-Walks ids fuel fd entries last enough ends w = rw (
    get_device_id_list,
    if◌then◌else◌,
    collect_devices-Walks ids fuel 0 first_id entries last enough ends w,
  )
