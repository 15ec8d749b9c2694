-- ===== src/Seq/Query/Lists.antt =====
-- What the loops of src/seq/query.c leave in the list that they fill: the values that are found, as many
-- as were counted, and zeros in the places that are left over.
use alsa_gobject.Base.{
  padded, padded-nil, ℕ, zero, suc, ◌+◌, ◌%◌, ◌^◌, ◌≤◌, ◌<◌, Bool, true, false, if◌then◌else◌, ◌==◌,
  ltb, lt→ltb, ltb→lt, ◌≢◌, Bool-cases, inl, inr, some, List, [], ◌∷◌, ◌++◌, map, length, replicate,
  ◌≡◌, refl, ap, ◌∙◌, arith, append_assoc, length-append,
}
use alsa_gobject.Platform.{Platform, Reply, answer, errno, Reply-cases, fault, ended, success}
use alsa_gobject.Seq.Query.{put, walk}

pub put-append :
    (before : List ℕ) (index x value : ℕ) (rest : List ℕ)
    → index ≡ length before
    → put (before ++ (x ∷ rest)) index value ≡ some ((before ++ (value ∷ [])) ++ rest)
unfolding put
put-append [] zero x value rest e = refl
put-append [] (suc index) x value rest e = absurd (omega arith)
put-append (b ∷ before) zero x value rest e = absurd (omega arith)
put-append (b ∷ before) (suc index) x value rest e =
    rw (put-append before index x value rest (omega arith))

-- The identifiers that are not skipped.
abbrev pub kept : (ℕ → Bool) → List ℕ → List ℕ
kept skip [] = []
kept skip (id ∷ ids) = if skip id then kept skip ids else id ∷ kept skip ids

abbrev pub bytes : List ℕ → List ℕ
bytes ids = map (λ id. id % 2 ^ 8) ids

-- The identifiers that the sequencer gives from one on, and that there is no other behind them.
abbrev pub Walks : Platform → (ℕ → ℕ → Reply ℕ) → ℕ → ℕ → List ℕ → Type 0
Walks p next call last [] = next call last ≡ errno p.enoent
Walks p next call last (id ∷ ids) = (next call last ≡ answer id) × Walks p next (suc call) id ids

module _ (p : Platform) (next : ℕ → ℕ → Reply ℕ) (skip : ℕ → Bool) (count : ℕ) where
  -- The places that are left over behind those written.
  pub walk-Walks :
      (ids : List ℕ) (fuel call last index : ℕ) (before : List ℕ) (left : ℕ)
      → length ids < fuel
      → index ≡ length before
      → index + left ≡ count
      → Walks p next call last ids
      → walk p next skip count fuel call last index (before ++ replicate left 0)
        ≡ ended (success (before ++ padded left (bytes (kept skip ids))))
  unfolding walk
  walk-Walks ids zero call last index before left enough here room w = absurd (omega arith)
  walk-Walks ids (suc fuel) call last index before zero enough here room w =
      let full : ltb index count ≡ false = ground arith in rw (full, if◌then◌else◌)
  walk-Walks [] (suc fuel) call last index before (suc left) enough here room w =
      rw (lt→ltb index count (omega arith), w, same, padded-nil (suc left), if◌then◌else◌)
    where
      same : (p.enoent == p.enoent) ≡ true
      same = ground arith
  walk-Walks (id ∷ ids) (suc fuel) call last index before (suc left) enough here room (now, w) =
      elim (Bool-cases (skip id)) [
        | inl out ↦
            rw (lt→ltb index count (omega arith), now, out, if◌then◌else◌)
              (walk-Walks ids fuel (suc call) id index before (suc left) (omega arith) here room w)
        | inr stays ↦
            rw
              (
                lt→ltb index count (omega arith),
                now,
                stays,
                put-append before index 0 (id % 2 ^ 8) (replicate left 0) here,
                if◌then◌else◌,
              )
              (walk-Walks ids fuel (suc call) id (suc index) (before ++ (id % 2 ^ 8 ∷ [])) left
                  (omega arith) (omega (arith, length-append before (id % 2 ^ 8 ∷ [])))
                  (omega arith) w
                ∙ ap (λ t. ended (success t))
                    (append_assoc before (id % 2 ^ 8 ∷ []) (padded left (bytes (kept skip ids)))))
      ]

-- A write at an allocated place keeps the number of places.
put-length :
    (list : List ℕ) (index value : ℕ)
    → index < length list
    → (list' : List ℕ) × (put list index value ≡ some list') × (length list' ≡ length list)
unfolding put
put-length [] index value h = absurd (omega arith)
put-length (x ∷ xs) zero value h = (value ∷ xs, refl, refl)
put-length (x ∷ xs) (suc index) value h =
    let (ys, put_ys, size) = put-length xs index value (omega arith) in
    (x ∷ ys, rw (put_ys), ap suc size)

-- What the sequencer documents of a walk over the identifiers of clients: the one that follows an
-- identifier is greater, and all are less than 256. The walk starts at -1.
abbrev pub Ascends : (ℕ → ℕ → Reply ℕ) → Type 0
Ascends next =
    (call last id : ℕ) → next call last ≡ answer id → ((last + 1) % 2 ^ 32 ≤ id) × (id < 2 ^ 8)

module _ (p : Platform) (next : ℕ → ℕ → Reply ℕ) (skip : ℕ → Bool) (count : ℕ) where
  pub walk-Ascends :
      (fuel call last index : ℕ) (list : List ℕ)
      → Ascends next
      → length list ≡ count
      → (last + 1) % 2 ^ 32 ≤ 2 ^ 8
      → 2 ^ 8 < fuel + (last + 1) % 2 ^ 32
      → walk p next skip count fuel call last index list ≢ fault
  unfolding walk
  walk-Ascends zero call last index list asc size low enough h = absurd (omega arith)
  walk-Ascends (suc fuel) call last index list asc size low enough h =
      elim (Bool-cases (ltb index count)) [
        | inr full ↦ absurd (cc (rw (walk, full, if◌then◌else◌) at h))
        | inl more ↦ elim (Reply-cases (next call last)) [
          | inl (e, failed) ↦ elim (Bool-cases (e == p.enoent)) [
            | inl absent ↦ absurd (cc (rw (walk, more, failed, absent, if◌then◌else◌) at h))
            | inr other ↦ absurd (cc (rw (walk, more, failed, other, if◌then◌else◌) at h))
          ]
          | inr (id, found) ↦
              let (above, below) = asc call last id found in
              elim (Bool-cases (skip id)) [
                | inl out ↦
                    walk-Ascends fuel (suc call) id index list asc size (omega arith) (omega arith)
                      (rw (walk, more, found, out, if◌then◌else◌) at h)
                | inr stays ↦
                    let (list', put_it, same) =
                      put-length list index (id % 2 ^ 8) (omega (arith, ltb→lt index count more)) in
                    walk-Ascends fuel (suc call) id (suc index) list' asc (same ∙ size)
                      (omega arith) (omega arith)
                      (rw (walk, more, found, stays, put_it, if◌then◌else◌) at h)
              ]
        ]
      ]
