-- ===== src/Timer/InstanceParams/Filter.antt =====
-- The word of src/timer/instance-params.c stands for a set of events.
use alsa_gobject.Base.{
  ℕ, zero, suc, ◌^◌, bit_or, Bool, true, false, not, ◌&&◌, ◌||◌, if◌then◌else◌, ◌==◌, Option, none,
  some, List, [], ◌∷◌, among, members, or_false, ◌≡◌, refl, sym, ap, ◌∙◌, Bool-cases, inl, inr, ap₂,
  arith,
}
use alsa_gobject.Base.Bits.{bit, bit_and-bit, bit-bit_or, bit-zero}
use alsa_gobject.Timer.InstanceParams.{
  InstanceParams, is_known, filter_of, set_event_filter, entries_from, get_event_filter,
}

-- The numbers that `enum snd_timer_event` gives to the events of a timer, from SNDRV_TIMER_EVENT_RESOLUTION
-- to SNDRV_TIMER_EVENT_RESUME, and to those of its master, from SNDRV_TIMER_EVENT_MSTART to
-- SNDRV_TIMER_EVENT_MRESUME; 16 between them has no name.
abbrev pub timer_events : List ℕ
timer_events = 0 ∷ (1 ∷ (2 ∷ (3 ∷ (4 ∷ (5 ∷ (6 ∷ (7 ∷ (8 ∷ []))))))))

abbrev pub master_events : List ℕ
master_events = 12 ∷ (13 ∷ (14 ∷ (15 ∷ (16 ∷ (17 ∷ (18 ∷ []))))))

-- Whether all entries are events.
abbrev pub all_known : List ℕ → Bool
all_known [] = true
all_known (val ∷ vals) = (among val timer_events || among val master_events) && all_known vals

-- Whether all entries pass the test of the code.
abbrev all_pass : List ℕ → Bool
all_pass [] = true
all_pass (val ∷ vals) = is_known val && all_pass vals

is_known-among : (val : ℕ) → is_known val ≡ (among val timer_events || among val master_events)
is_known-among val = ground arith

all_pass-all_known : (vals : List ℕ) → all_pass vals ≡ all_known vals
all_pass-all_known [] = refl
all_pass-all_known (val ∷ vals) = ap₂ (λ a b. a && b) (is_known-among val) (all_pass-all_known vals)

-- A list without an element is not given out.
abbrev pub given_out : List ℕ → Option (List ℕ)
given_out [] = none
given_out (i ∷ rest) = some (i ∷ rest)

or_true : (a : Bool) → (a || true) ≡ true
or_true true = refl
or_true false = refl

or_bit :
    (a : Bool) (val i filter : ℕ)
    → (a || not ((if val == i then 1 else bit i filter) == 0))
      ≡ (((val == i) || a) || not (bit i filter == 0))
or_bit a val i filter = elim (Bool-cases (val == i)) [
  | inl same ↦ rw (same, if◌then◌else◌) (or_true a)
  | inr other ↦ rw (other, if◌then◌else◌)
]

-- The filter that the loop ends with, bit by bit.
filter_of-known :
    (vals : List ℕ) (filter : ℕ)
    → all_pass vals ≡ true
    → (word : ℕ) × (filter_of filter vals ≡ some word)
      × ((i : ℕ) → not (bit i word == 0) ≡ (among i vals || not (bit i filter == 0)))
unfolding filter_of
filter_of-known [] filter known = (filter, refl, (λ i. refl))
filter_of-known (val ∷ vals) filter known = elim (Bool-cases (is_known val)) [
  | inr unknown ↦ absurd (cc (rw (unknown) at known))
  | inl is ↦
      let (word, found, bits) = filter_of-known vals (bit_or filter (2 ^ val)) (rw (is) at known) in
      (
        word,
        rw (filter_of, is) found,
        (λ i.
            bits i
            ∙ ap (λ (x : ℕ). among i vals || not (x == 0)) (bit-bit_or val i filter)
            ∙ or_bit (among i vals) val i filter),
      )
]

filter_of-unknown :
    (vals : List ℕ) (filter : ℕ) → all_pass vals ≡ false → filter_of filter vals ≡ none
unfolding filter_of
filter_of-unknown [] filter unknown = absurd (cc unknown)
filter_of-unknown (val ∷ vals) filter unknown = elim (Bool-cases (is_known val)) [
  | inr here ↦ rw (filter_of, here)
  | inl is ↦
      rw (filter_of, is) (filter_of-unknown vals (bit_or filter (2 ^ val)) (rw (is) at unknown))
]

entries_from-members :
    (filter : ℕ) (entries : List ℕ) (left i : ℕ)
    → ((j : ℕ) → not (bit j filter == 0) ≡ among j entries)
    → entries_from filter left i ≡ members entries left i
unfolding entries_from
entries_from-members filter entries zero i same = refl
entries_from-members filter entries (suc left) i same =
    let tail = entries_from-members filter entries left (suc i) same in
    elim (Bool-cases (bit i filter == 0)) [
      | inl clear ↦
          let absent : among i entries ≡ false = sym (same i) ∙ rw (clear) in
          rw (bit_and-bit i filter, clear, absent, tail, if◌then◌else◌)
      | inr set ↦
          let present : among i entries ≡ true = sym (same i) ∙ rw (set) in
          rw (bit_and-bit i filter, set, present, tail, if◌then◌else◌)
    ]

module _ {Rest : Type 0} where
  get_event_filter-given_out :
      (self : InstanceParams Rest) (events : List ℕ)
      → entries_from self.filter 32 0 ≡ events
      → get_event_filter self ≡ given_out events
  unfolding get_event_filter
  get_event_filter-given_out self events same = ap (λ t. given_out t) same

  no_events : (rest : Rest) → get_event_filter (record { filter = 0; rest = rest }) ≡ none
  unfolding get_event_filter entries_from
  no_events rest = refl

  -- The word is a set of events: where all entries are events, the call succeeds, and the entries that
  -- are read afterwards are these, in ascending order and each once, or nothing is given out where there
  -- is none. Where an entry is no event, the call fails and leaves the filter without any event.
  pub get_event_filter-all_known :
      (self : InstanceParams Rest) (entries : List ℕ)
      → (get_event_filter (set_event_filter self entries).0
          ≡ (if all_known entries then given_out (members entries 32 0) else none))
        × ((set_event_filter self entries).1 ≡ all_known entries)
  unfolding set_event_filter
  get_event_filter-all_known self entries = elim (Bool-cases (all_known entries)) [
    | inl known ↦
        let (word, found, bits) = filter_of-known entries 0 (all_pass-all_known entries ∙ known) in
        let same = entries_from-members word entries 32 0 (λ j.
          bits j
          ∙ ap (λ (x : ℕ). among j entries || not (x == 0)) (bit-zero j)
          ∙ or_false (among j entries)) in
        let read =
          get_event_filter-given_out (record { filter = word; rest = self.rest })
            (members entries 32 0) same in
        (
          rw (set_event_filter, found, known, read, if◌then◌else◌),
          rw (set_event_filter, found, known),
        )
    | inr unknown ↦
        let ends = filter_of-unknown entries 0 (all_pass-all_known entries ∙ unknown) in
        (
          rw (set_event_filter, ends, unknown, no_events self.rest, if◌then◌else◌),
          rw (set_event_filter, ends, unknown),
        )
  ]
