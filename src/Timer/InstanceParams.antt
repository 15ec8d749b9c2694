-- ===== src/Timer/InstanceParams.antt =====
-- src/timer/instance-params.c: the filter of the parameters of a timer instance. The other properties of
-- the class store members of the structure.
mod Tests
pub mod Filter
use alsa_gobject.Base.{
  ℕ, zero, suc, ◌^◌, bit_and, bit_or, Bool, true, false, not, ◌&&◌, ◌||◌, if◌then◌else◌, ◌==◌, leb,
  ltb, Option, none, some, List, [], ◌∷◌,
}

-- `struct snd_timer_params` with the members that are not the filter.
pub record InstanceParams (Rest : Type 0) : Type 0 where
  pub filter : ℕ
  pub rest : Rest

-- The events of `enum snd_timer_event`: two ranges, of a timer and of its master.
abbrev pub event_resume : ℕ
event_resume = 8

abbrev pub event_mstart : ℕ
event_mstart = 12

abbrev pub event_mresume : ℕ
event_mresume = 18

-- The test before an entry is taken; the first event is 0.
abbrev pub is_known : ℕ → Bool
is_known val = not ((ltb event_resume val && ltb val event_mstart) || ltb event_mresume val)

-- The loop over the entries; `none` where it ends the call.
unfoldable pub filter_of : ℕ → List ℕ → Option ℕ
filter_of filter [] = some filter
filter_of filter (val ∷ vals) = elim (is_known val) [
  | true ↦ filter_of (bit_or filter (2 ^ val)) vals
  | false ↦ none
]

-- The second loop, from an event on; the first one counts the places that it needs.
unfoldable pub entries_from : ℕ → ℕ → ℕ → List ℕ
entries_from filter zero i = []
entries_from filter (suc left) i =
    let rest = entries_from filter left (suc i) in
    if bit_and filter (2 ^ i) == 0 then rest else i ∷ rest

module _ {Rest : Type 0} where
  -- The parameters behind the call, and whether it succeeds; it sets no error.
  unfoldable pub set_event_filter : InstanceParams Rest → List ℕ → InstanceParams Rest × Bool
  set_event_filter self entries = elim (filter_of 0 entries) [
    | none ↦ (record self { filter = 0 }, false)
    | some filter ↦ (record self { filter = filter }, true)
  ]

  -- The result is `none` where the call succeeds and stores neither the entries nor their number.
  unfoldable pub get_event_filter : InstanceParams Rest → Option (List ℕ)
  get_event_filter self = elim (entries_from (self.filter) 32 0) [
    | [] ↦ none
    | i ∷ rest ↦ some (i ∷ rest)
  ]
