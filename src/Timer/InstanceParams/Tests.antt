-- ===== src/Timer/InstanceParams/Tests.antt =====
-- A run of src/timer/instance-params.c at concrete values.
use alsa_gobject.Base.{ℕ, true, some, [], ◌∷◌, ◌≡◌}
use alsa_gobject.Timer.InstanceParams.{InstanceParams, set_event_filter, get_event_filter}
use alsa_gobject.Timer.InstanceParams.Filter.{get_event_filter-all_known}

abbrev params : InstanceParams ℕ
params = record { filter = 1; rest = 7 }

get_event_filter-all_known_example :
    (get_event_filter (set_event_filter params (12 ∷ (2 ∷ []))).0 ≡ some (2 ∷ (12 ∷ [])))
    × ((set_event_filter params (12 ∷ (2 ∷ []))).1 ≡ true)
get_event_filter-all_known_example = get_event_filter-all_known params (12 ∷ (2 ∷ []))
