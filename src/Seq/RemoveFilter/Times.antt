-- ===== src/Seq/RemoveFilter/Times.antt =====
-- The time of a filter of src/seq/remove-filter.c under its setters.
use alsa_gobject.Base.{ℕ, true, false, Bool-cases, ◌⊎◌, inl, inr, Option, none, some, ◌≡◌, refl}
use alsa_gobject.Seq.Uapi.{Stamp}
use alsa_gobject.Seq.RemoveFilter.{
  RemoveFilter, Setting, flags, queue_id, channel, event_type, tag, destination, set_property,
  Filter, get_properties, takes_tick, get_tick_time, set_tick_time, get_real_time, set_real_time,
}

-- What is set in the abstract: one property changes, the others stay; no address is undefined.
abbrev written : Filter → Setting → Option Filter
written s (flags v) = some (record s { flags = v })
written s (queue_id v) = some (record s { queue_id = v })
written s (destination none) = none
written s (destination (some v)) = some (record s { destination = v })
written s (channel v) = some (record s { channel = v })
written s (event_type v) = some (record s { event_type = v })
written s (tag v) = some (record s { tag = v })

-- The properties of the filter that a setting gives, if it gives one.
abbrev properties_of : Option RemoveFilter → Option Filter
properties_of none = none
properties_of (some self) = some (get_properties self)

-- The structure implements six properties that do not touch one another; setting the destination to
-- no address is undefined.
get_filter-set_property :
    (self : RemoveFilter) (s : Setting)
    → properties_of (set_property self s) ≡ written (get_properties self) s
unfolding get_properties set_property
get_filter-set_property self (flags v) = refl
get_filter-set_property self (queue_id v) = refl
get_filter-set_property self (destination none) = refl
get_filter-set_property self (destination (some v)) = refl
get_filter-set_property self (channel v) = refl
get_filter-set_property self (event_type v) = refl
get_filter-set_property self (tag v) = refl

-- Where the flags ask for a tick time, the setter for it stores one, that for a real time changes
-- nothing, and there is no real time to get; otherwise the two change their parts. A time that was set
-- is read back in the mode of its own, and a setter of the time leaves the properties as they are.
get_times-set_times :
    (self : RemoveFilter) (tick : ℕ) (real : Stamp)
    → ((takes_tick self ≡ true)
        × (get_tick_time (set_tick_time self tick) ≡ some tick)
        × (get_real_time (set_tick_time self tick) ≡ none)
        × (get_properties (set_tick_time self tick) ≡ get_properties self)
        × (set_real_time self real ≡ self))
      ⊎ ((takes_tick self ≡ false)
          × (get_real_time (set_real_time self real) ≡ some real)
          × (get_tick_time (set_real_time self real) ≡ none)
          × (get_properties (set_real_time self real) ≡ get_properties self)
          × (set_tick_time self tick ≡ self))
unfolding get_properties get_tick_time set_tick_time get_real_time set_real_time takes_tick
get_times-set_times self tick real = elim (Bool-cases (takes_tick self)) [
  | inl e ↦ inl (e, rw (e, e), rw (e, e), rw (e), rw (e))
  | inr e ↦ inr (e, rw (e, e), rw (e, e), rw (e), rw (e))
]

-- A tick time that was set is read as the seconds of a real time once the flags no longer ask for a
-- tick time.
get_real_time-set_tick_time :
    (self : RemoveFilter) (tick mode : ℕ)
    → takes_tick self ≡ true
    → takes_tick (record self { remove_mode = mode }) ≡ false
    → get_real_time (record (set_tick_time self tick) { remove_mode = mode })
      ≡ some (record (self.time) { first = tick })
unfolding get_real_time set_tick_time takes_tick
get_real_time-set_tick_time self tick mode e off = rw (off, e)
