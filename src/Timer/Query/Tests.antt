-- ===== src/Timer/Query/Tests.antt =====
-- Runs of src/timer/query.c at concrete values.
use alsa_gobject.Base.{ℕ, true, none, some, if◌then◌else◌, ◌==◌, [], ◌∷◌, ◌≡◌, refl, arith}
use alsa_gobject.Samples.{platform}
use alsa_gobject.Platform.{Reply, answer, errno, ended, success, failure, file}
use alsa_gobject.Timer.UserInstance.{DeviceId}
use alsa_gobject.Timer.Query.{monotonic, get_device_id_list, get_real_time_clock_id}
use alsa_gobject.Timer.Query.Devices.{get_device_id_list-Walks}
use alsa_gobject.Timer.Query.Clock.{get_real_time_clock_id-decimal}

abbrev system_timer : DeviceId
system_timer = record { dev_class = 1; dev_sclass = 0; card = 0; device = 0; subdevice = 0 }

-- One timer, and then the removal of the device.
abbrev next : ℕ → DeviceId → Reply DeviceId
next call id = if call == 0 then answer system_timer else errno 19

get_device_id_list-Walks_example :
    get_device_id_list platform 2 (record { truth = true; fd = some 5; error = none }) next []
    ≡ (system_timer ∷ [], record { closed = 5 ∷ []; outcome = ended (failure (some (file 24))) })
get_device_id_list-Walks_example =
    get_device_id_list-Walks platform next (system_timer ∷ []) 2 5 [] (errno 19) (omega arith) tt
      (refl, refl, refl)

get_real_time_clock_id-decimal_example :
    get_real_time_clock_id platform (answer 6) (λ size. answer (49 ∷ (10 ∷ [])))
    ≡ record { closed = 6 ∷ []; outcome = ended (success monotonic) }
get_real_time_clock_id-decimal_example =
    get_real_time_clock_id-decimal platform 6 1 [] (λ size. answer (49 ∷ (10 ∷ [])))
      (omega arith, tt) (omega arith) refl
