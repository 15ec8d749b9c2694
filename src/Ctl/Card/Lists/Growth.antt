-- ===== src/Ctl/Card/Lists/Growth.antt =====
-- What happens when elements are added to the card while their identifiers are asked for.
use alsa_gobject.Base.{
  ℕ, suc, ◌+◌, ◌-◌, ◌^◌, min, if◌then◌else◌, ◌==◌, Option, none, some, List, ◌++◌, map, length,
  take, drop, replicate, ◌≡◌, refl, ◌∙◌, ◌<◌, ◌≤◌, false, arith, length-map, length-take,
  length-drop, length-append, length-replicate, lt→ltb, le→leb,
}
use alsa_gobject.Platform.{Platform, Reply, answer, fault}
use alsa_gobject.Ctl.Card.{ElemId}
use alsa_gobject.Ctl.Card.Lists.{
  ElemList, write_ids, allocate_from, allocate_elem_ids, get_elem_id_list,
}

zero_plus : (n : ℕ) → 0 + n ≡ n
zero_plus n = omega arith

-- A write that fits keeps the number of slots.
write_ids-fits :
    (ids : List (Option ElemId)) (offset : ℕ) (pids : List ElemId)
    → offset + length pids ≤ length ids
    → (ids' : List (Option ElemId)) × (write_ids ids offset pids ≡ some ids')
      × (length ids' ≡ length ids)
unfolding write_ids
write_ids-fits ids offset pids fits = (
  take offset ids ++ (map some pids ++ drop (offset + length pids) ids),
  rw (le→leb (offset + length pids) (length ids) fits, if◌then◌else◌),
  omega (
    arith,
    length-append (take offset ids) (map some pids ++ drop (offset + length pids) ids),
    length-append (map some pids) (drop (offset + length pids) ids),
    length-map pids (λ i. some i),
    length-take offset ids,
    length-drop (offset + length pids) ids,
  ),
)

write_ids-over :
    (ids : List (Option ElemId)) (offset : ℕ) (pids : List ElemId)
    → length ids < offset + length pids
    → write_ids ids offset pids ≡ none
unfolding write_ids
write_ids-over ids offset pids over = ground arith

module _ (p : Platform) (elem_list : ℕ → ℕ → ℕ → Reply ElemList) where
  allocate_from-step :
      (fuel call offset count space : ℕ) (ids ids' : List (Option ElemId)) (reply : ElemList)
      → space ≡ min (count - offset) 1000
      → offset < count
      → elem_list call offset space ≡ answer reply
      → write_ids ids offset (take space reply.pids) ≡ some ids'
      → allocate_from p elem_list (suc fuel) call offset count ids
        ≡ allocate_from p elem_list fuel (suc call) (offset + space) (reply.count) ids'
  unfolding allocate_from
  allocate_from-step fuel call offset count space ids ids' reply size more asked fits =
      let asked' = rw (size) at asked in
      let fits' = rw (size) at fits in
      rw (size, lt→ltb offset count more, asked', fits', if◌then◌else◌)

  allocate_from-over :
      (fuel call offset count space : ℕ) (ids : List (Option ElemId)) (reply : ElemList)
      → space ≡ min (count - offset) 1000
      → offset < count
      → elem_list call offset space ≡ answer reply
      → write_ids ids offset (take space reply.pids) ≡ none
      → allocate_from p elem_list (suc fuel) call offset count ids ≡ fault
  unfolding allocate_from
  allocate_from-over fuel call offset count space ids reply size more asked over =
      let asked' = rw (size) at asked in
      let over' = rw (size) at over in rw (lt→ltb offset count more, asked', over', if◌then◌else◌)

  allocate_elem_ids_growth :
      (first second third : ElemList)
      → elem_list 0 0 0 ≡ answer first
      → 0 < first.count
      → first.count ≤ 1000
      → elem_list 1 0 first.count ≡ answer second
      → first.count < second.count
      → elem_list 2 first.count (min (second.count - first.count) 1000) ≡ answer third
      → 0 < length third.pids
      → allocate_elem_ids p elem_list ≡ fault
  unfolding allocate_elem_ids
  allocate_elem_ids_growth first second third e₀ some_elem few e₁ more e₂ written =
      let unset : Option ElemId = none in
      let slots = replicate first.count unset in
      let space = min (second.count - first.count) 1000 in
      let pids = take first.count second.pids in
      let (slots', fits, size) =
        write_ids-fits slots 0 pids (
          omega (arith, length-take first.count second.pids, length-replicate first.count unset)) in
      let over =
        write_ids-over slots' first.count (take space third.pids)
          (omega (arith, size, length-take space third.pids, length-replicate first.count unset)) in
      rw (allocate_elem_ids, e₀, nonzero, if◌then◌else◌)
        (allocate_from-step (2 ^ 32 - 1) 1 0 first.count first.count slots slots' second
            (omega arith) some_elem e₁ fits
          ∙ rw (zero_plus first.count) (
              allocate_from-over (2 ^ 32 - 2) 2 first.count second.count space slots' third refl
                more e₂ over))
    where
      nonzero : (first.count == 0) ≡ false
      nonzero = ground arith

  -- Where one to 1000 elements are counted first, the answer to the request for these counts more,
  -- and the next request is answered with an identifier, the behaviour of the call is undefined:
  -- that identifier is written behind the allocated slots.
  pub get_elem_id_list_growth :
      (first second third : ElemList)
      → elem_list 0 0 0 ≡ answer first
      → 0 < first.count
      → first.count ≤ 1000
      → elem_list 1 0 first.count ≡ answer second
      → first.count < second.count
      → elem_list 2 first.count (min (second.count - first.count) 1000) ≡ answer third
      → 0 < length third.pids
      → get_elem_id_list p elem_list ≡ fault
  unfolding get_elem_id_list
  get_elem_id_list_growth first second third e₀ some_elem few e₁ more e₂ written = rw (
    get_elem_id_list,
    allocate_elem_ids_growth first second third e₀ some_elem few e₁ more e₂ written,
  )
