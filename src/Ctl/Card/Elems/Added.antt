-- ===== src/Ctl/Card/Elems/Added.antt =====
-- The identifiers of added elements, and the errors of the calls for elements.
use alsa_gobject.Base.{
  ℕ, zero, suc, ◌+◌, ◌%◌, ◌^◌, ◌<◌, ◌≡◌, refl, sym, ap, ◌∙◌, Bool, false, if◌then◌else◌, ◌&&◌,
  Bool-cases, Option-cases, inl, inr, ltb, some, List, length, get_elem?, arith,
}
use alsa_gobject.Platform.{Platform, Reply, Reply-cases, answer, success}
use alsa_gobject.Ctl.Card.{ElemId}
use alsa_gobject.Ctl.Card.Elems.{
  ElemType, ElemInfo, entries_from, accepts, is_complete, prepared, add_or_replace_elems, add_elems,
}

-- The identifier `i` places behind another one.
abbrev pub shift_id : ElemId → ℕ → ElemId
shift_id id i = record id { numid = (id.numid + i) % 2 ^ 32; index = (id.index + i) % 2 ^ 32 }

length-entries_from : (n : ℕ) (src : ElemId) → length (entries_from src n) ≡ n
unfolding entries_from
length-entries_from zero src = refl
length-entries_from (suc n) src = ap suc (
    length-entries_from n
      (record src { numid = (src.numid + 1) % 2 ^ 32; index = (src.index + 1) % 2 ^ 32 }))

shift_id_zero : (id : ElemId) → id.numid < 2 ^ 32 → id.index < 2 ^ 32 → shift_id id 0 ≡ id
shift_id_zero id a b = rw (stays id.numid a, stays id.index b)
  where
    stays : (n : ℕ) → n < 2 ^ 32 → (n + 0) % 2 ^ 32 ≡ n
    stays n h = omega arith

shift_id-suc :
    (id : ElemId) (i : ℕ)
    → id.numid < 2 ^ 32
    → id.index < 2 ^ 32
    → shift_id (shift_id id 1) i ≡ shift_id id (suc i)
shift_id-suc id i a b = rw (moves id.numid a, moves id.index b)
  where
    moves : (n : ℕ) → n < 2 ^ 32 → ((n + 1) % 2 ^ 32 + i) % 2 ^ 32 ≡ (n + suc i) % 2 ^ 32
    moves n h = omega arith

get_elem?-entries_from :
    (n i : ℕ) (src : ElemId)
    → src.numid < 2 ^ 32
    → src.index < 2 ^ 32
    → i < n
    → get_elem? (entries_from src n) i ≡ some (shift_id src i)
unfolding entries_from
get_elem?-entries_from zero i src a b h = absurd (omega arith)
get_elem?-entries_from (suc n) zero src a b h = ap (λ id. some id) (sym (shift_id_zero src a b))
get_elem?-entries_from (suc n) (suc i) src a b h =
    get_elem?-entries_from n i (shift_id src 1) (omega arith) (omega arith) (omega arith)
    ∙ ap (λ id. some id) (shift_id-suc src i a b)

module _ (p : Platform) (request : Bool → ElemInfo → Reply ElemId) (id : ElemId)
    (elem_count : ℕ) where
  -- Identifiers that follow one another from `first` on.
  abbrev pub Follow : ElemId → List ElemId → Type 0
  Follow first entries =
      (length entries ≡ elem_count)
      × ((i : ℕ) → i < elem_count → get_elem? entries i ≡ some (shift_id first i))

  requested :
      (elem_type : ElemType) (info : ElemInfo) (labels : List (List ℕ)) (replace : Bool)
      (entries : List ElemId)
      → add_or_replace_elems p request id elem_count elem_type info labels replace ≡ success entries
      → (asked : ElemInfo) × (first : ElemId) × (request replace asked ≡ answer first)
        × (asked.id ≡ id)
        × (asked.owner ≡ elem_count)
        × (entries ≡ entries_from first elem_count)
  unfolding add_or_replace_elems
  requested elem_type info labels replace entries e =
      elim (Bool-cases (accepts elem_type info.range && is_complete elem_type info)) [
        | inr unfit ↦ absurd (cc (rw (add_or_replace_elems, unfit, if◌then◌else◌) at e))
        | inl fit ↦ elim (Option-cases (prepared elem_type labels)) [
          | inl long ↦ absurd (cc (rw (add_or_replace_elems, fit, long, if◌then◌else◌) at e))
          | inr (names, short) ↦
              let asked = record info { id = id; owner = elem_count; enumerated = names } in
              elim (Reply-cases (request replace asked)) [
                | inl (n, failed) ↦
                    absurd (cc (rw (add_or_replace_elems, fit, short, failed, if◌then◌else◌) at e))
                | inr (first, answered) ↦
                    let made =
                      rw (add_or_replace_elems, fit, short, answered, if◌then◌else◌) at e in
                    (asked, first, answered, refl, refl, cc made)
              ]
        ]
      ]

  -- With a driver whose identifiers are words of 32 bits: where elements are added with success,
  -- the driver was asked to add as many as were asked for under the identifier; there is an
  -- identifier for each of them, and their numbers and indices follow those of the identifier that
  -- the driver left, modulo 2^32.
  pub add_elems-entries :
      (elem_type : ElemType) (info : ElemInfo) (labels : List (List ℕ)) (entries : List ElemId)
      → ((replace : Bool) (asked : ElemInfo) (first : ElemId)
          → request replace asked ≡ answer first
          → (first.numid < 2 ^ 32) × (first.index < 2 ^ 32))
      → add_elems p request id elem_count elem_type info labels ≡ success entries
      → (asked : ElemInfo) × (first : ElemId) × (request false asked ≡ answer first)
        × (asked.id ≡ id)
        × (asked.owner ≡ elem_count)
        × Follow first entries
  unfolding add_elems
  add_elems-entries elem_type info labels entries words e = elim (Bool-cases (ltb 0 elem_count)) [
    | inr no_elem ↦ absurd (cc (rw (add_elems, no_elem, if◌then◌else◌) at e))
    | inl some_elem ↦
        let added = rw (add_elems, some_elem, if◌then◌else◌) at e in
        let (asked, first, answered, same_id, same_count, made) =
          requested elem_type info labels false entries added in
        let (a, b) = words false asked first answered in
        (
          asked,
          first,
          answered,
          same_id,
          same_count,
          (
            rw (made) (length-entries_from elem_count first),
            λ i h. rw (made) (get_elem?-entries_from elem_count i first a b h),
          ),
        )
  ]
