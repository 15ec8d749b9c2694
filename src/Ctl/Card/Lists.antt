-- ===== src/Ctl/Card/Lists.antt =====
-- src/ctl/card.c: the identifiers of all elements, asked for in requests of at most 1000.
pub mod Served
pub mod Growth
use alsa_gobject.Base.{
  ℕ, zero, suc, ◌+◌, ◌-◌, ◌^◌, min, if◌then◌else◌, ◌==◌, leb, ltb, Option, none, some, List, [],
  ◌∷◌, ◌++◌, map, length, take, drop, replicate, ◌≡◌, refl, sym, ap, ◌∙◌, ◌<◌, ◌≤◌, true, arith,
  length-map, length-take, length-drop, length-append, length-replicate, take-append, drop-append,
  take_all, drop-drop, drop-replicate, take_add, map-append, append_assoc,
}
use alsa_gobject.Platform.{
  Platform, Reply, answer, errno, Outcome, fault, ended, local, success, failure,
}
use alsa_gobject.Ctl.Card.{CardError, ElemId, device_error}

-- What `SNDRV_CTL_IOCTL_ELEM_LIST` leaves: the number of elements of the card at that time, and the
-- identifiers that it writes to `pids`.
pub record ElemList : Type 0 where
  pub count : ℕ
  pub pids : List ElemId

-- Writes at a place of the allocated slots; `none` for a write behind them. A slot of memory from
-- `g_malloc_n` that is not written yet is `none`.
unfoldable pub write_ids : List (Option ElemId) → ℕ → List ElemId → Option (List (Option ElemId))
write_ids ids offset pids =
    if leb (offset + length pids) (length ids)
    then some (take offset ids ++ (map some pids ++ drop (offset + length pids) ids))
    else none

-- The slots that the last loop copies; to copy a slot that is not written, or one behind the
-- allocated ones, is undefined.
unfoldable pub copy_ids : ℕ → List (Option ElemId) → Option (List ElemId)
copy_ids zero ids = some []
copy_ids (suc n) [] = none
copy_ids (suc n) (none ∷ ids) = none
copy_ids (suc n) (some id ∷ ids) = elim (copy_ids n ids) [
  | none ↦ none
  | some rest ↦ some (id ∷ rest)
]

module _ (p : Platform) (elem_list : ℕ → ℕ → ℕ → Reply ElemList) where
  -- The loop with the number of requests made, `list->offset`, and `list->count` as the last
  -- request left it. `elem_list` has the number of the request, `offset` and `space`.
  unfoldable pub allocate_from :
      ℕ → ℕ → ℕ → ℕ → List (Option ElemId) → Outcome CardError (ℕ × List (Option ElemId))
  allocate_from zero call offset count ids = fault
  allocate_from (suc fuel) call offset count ids =
      let space = min (count - offset) 1000 in
      if ltb offset count
      then (elim (elem_list call offset space) [
        | errno e ↦ ended (failure (some (local (device_error p e))))
        | answer reply ↦ elim (write_ids ids offset (take space reply.pids)) [
          | none ↦ fault
          | some ids' ↦ allocate_from fuel (suc call) (offset + space) (reply.count) ids'
        ]
      ])
      else ended (success (count, ids))

  -- `count` and `offset` are words of 32 bits and `offset` grows in every round.
  unfoldable pub allocate_elem_ids : Outcome CardError (ℕ × List (Option ElemId))
  allocate_elem_ids = elim (elem_list 0 0 0) [
    | errno e ↦ ended (failure (some (local (device_error p e))))
    | answer reply ↦
        if reply.count == 0
        then ended (success (0, []))
        else allocate_from (2 ^ 32) 1 0 (reply.count) (replicate (reply.count) none)
  ]

  -- The counter of the last loop is an `int`, which overflows behind the entry 2^31 - 1; this is undefined.
  unfoldable pub get_elem_id_list : Outcome CardError (List ElemId)
  get_elem_id_list = elim allocate_elem_ids [
    | fault ↦ fault
    | ended (failure e) ↦ ended (failure e)
    | ended (success (count, ids)) ↦
        if leb (2 ^ 31) count
        then fault
        else (elim (copy_ids count ids) [ none ↦ fault | some entries ↦ ended (success entries) ])
  ]
