-- ===== src/Ctl/Card/Lists/Served.antt =====
-- What the identifiers of the elements are when the elements of the card do not change meanwhile.
use alsa_gobject.Base.{
  ℕ, zero, suc, ◌+◌, ◌-◌, ◌^◌, min, if◌then◌else◌, ◌==◌, leb, ltb, Option, none, some, List, [],
  ◌∷◌, ◌++◌, map, length, take, drop, replicate, ◌≡◌, refl, sym, ap, ◌∙◌, ◌<◌, ◌≤◌, true, false,
  arith, length-map, length-take, length-drop, length-append, length-replicate, take-append,
  drop-append, take_all, drop-drop, drop-replicate, take_add, map-append, append_assoc, Bool-cases,
  inl, inr, ltb→lt, append-nil,
}
use alsa_gobject.Platform.{Platform, Reply, answer, ended, success}
use alsa_gobject.Ctl.Card.{ElemId}
use alsa_gobject.Ctl.Card.Lists.{
  ElemList, write_ids, copy_ids, allocate_from, allocate_elem_ids, get_elem_id_list,
}

module _ (p : Platform) where
  -- What the kernel documents of a card whose elements do not change: a request is answered with the
  -- number of elements and with `space` identifiers from `offset` on, or as many as there are.
  abbrev pub serves : List ElemId → ℕ → ℕ → ℕ → Reply ElemList
  serves ids call offset space =
      answer (record { count = length ids; pids = take space (drop offset ids) })

  -- Some of the slots are written, the rest are not.
  abbrev pub filled : ℕ → List ElemId → List (Option ElemId)
  filled n ids = map some (take n ids) ++ replicate (length ids - n) none

  suc_ne_zero : (a : ℕ) → (suc a == 0) ≡ false
  suc_ne_zero a = ground arith

  minus_zero : (a : ℕ) → a - 0 ≡ a
  minus_zero a = omega arith

  minus_all : (a b : ℕ) → a ≤ b → a - b ≡ 0
  minus_all a b h = omega arith

  minus_minus : (a b c : ℕ) → a - b - c ≡ a - (b + c)
  minus_minus a b c = omega arith

  filled_all : (ids : List ElemId) (n : ℕ) → length ids ≤ n → filled n ids ≡ map some ids
  filled_all ids n all =
      rw (take_all ids n all, minus_all (length ids) n all) (append-nil (map some ids))

  write_ids-filled :
      (ids : List ElemId) (offset space : ℕ)
      → offset + space ≤ length ids
      → write_ids (filled offset ids) offset (take space (take space (drop offset ids)))
        ≡ some (filled (offset + space) ids)
  unfolding write_ids
  write_ids-filled ids offset space fits =
      let n = length ids in
      let unset : Option ElemId = none in
      let before = map some (take offset ids) in
      let tail = replicate (n - offset) unset in
      let written : take space (take space (drop offset ids)) ≡ take space (drop offset ids) =
        take_all (take space (drop offset ids)) space
          (omega (arith, length-take space (drop offset ids))) in
      let front : length before ≡ offset =
        omega (arith, length-map (take offset ids) (λ i. some i), length-take offset ids) in
      let size : length (take space (drop offset ids)) ≡ space =
        omega (arith, length-take space (drop offset ids), length-drop offset ids) in
      let room : leb (offset + space) (length (filled offset ids)) ≡ true =
        ground (arith, length-append before tail, length-replicate (n - offset) unset) in
      let behind : drop (offset + space) (filled offset ids)
          ≡ replicate (n - (offset + space)) none =
        sym (drop-drop offset space (filled offset ids))
        ∙ ap (λ t. drop space t) (drop-append before tail offset (sym front))
        ∙ drop-replicate space (n - offset) none
        ∙ ap (λ (t : ℕ). replicate t none) (minus_minus n offset space) in
      rw (written, size, room, if◌then◌else◌, take-append before tail offset (sym front), behind)
        (ap (λ t. some t)
          (sym (
              append_assoc before (map some (take space (drop offset ids)))
                (replicate (n - (offset + space)) unset))
            ∙ ap (λ t. t ++ replicate (n - (offset + space)) unset)
                (sym (map-append some (take offset ids) (take space (drop offset ids)))
                  ∙ ap (λ t. map some t) (sym (take_add offset space ids)))))

  copy_ids-filled : (ids : List ElemId) → copy_ids (length ids) (map some ids) ≡ some ids
  unfolding copy_ids
  copy_ids-filled [] = refl
  copy_ids-filled (id ∷ ids) = rw (copy_ids-filled ids)

  allocate_from-serves :
      (ids : List ElemId) (fuel call offset : ℕ)
      → offset ≤ length ids
      → length ids < offset + fuel
      → allocate_from p (serves ids) fuel call offset (length ids) (filled offset ids)
        ≡ ended (success (length ids, map some ids))
  unfolding allocate_from
  allocate_from-serves ids zero call offset le enough = absurd (omega arith)
  allocate_from-serves ids (suc fuel) call offset le enough =
      elim (Bool-cases (ltb offset (length ids))) [
        | inl more ↦
            let space = min (length ids - offset) 1000 in
            let below = ltb→lt offset (length ids) more in
            rw (more, write_ids-filled ids offset space (omega arith), if◌then◌else◌)
              (allocate_from-serves ids fuel (suc call) (offset + space) (omega arith)
                (omega arith))
        | inr over ↦
            let all : length ids ≤ offset = ground (arith, over) in
            rw (over, if◌then◌else◌, filled_all ids offset all)
      ]

  allocate_elem_ids-serves :
      (ids : List ElemId)
      → length ids < 2 ^ 32
      → allocate_elem_ids p (serves ids) ≡ ended (success (length ids, map some ids))
  unfolding allocate_elem_ids
  allocate_elem_ids-serves [] small = refl
  allocate_elem_ids-serves (id ∷ ids) small =
      rw (suc_ne_zero (length ids), if◌then◌else◌)
        (ap (λ slots. allocate_from p (serves (id ∷ ids)) (2 ^ 32) 1 0 (suc (length ids)) slots)
            (sym (rw (minus_zero (suc (length ids)))))
          ∙ allocate_from-serves (id ∷ ids) (2 ^ 32) 1 0 (omega arith) (omega arith))

  -- Where the driver serves the identifiers of a card with fewer than 2^31 elements, which do not
  -- change meanwhile, the call ends with success and gives exactly these identifiers, in the order
  -- of the card.
  pub get_elem_id_list-serves :
      (ids : List ElemId)
      → length ids < 2 ^ 31
      → get_elem_id_list p (serves ids) ≡ ended (success ids)
  unfolding get_elem_id_list
  get_elem_id_list-serves ids small = rw (
    get_elem_id_list,
    allocate_elem_ids-serves ids (omega arith),
    counted,
    copy_ids-filled ids,
    if◌then◌else◌,
  )
    where
      counted : leb (2 ^ 31) (length ids) ≡ false
      counted = ground arith
