-- ===== src/Descriptor.antt =====
-- The descriptor that a query opens for itself, in src/seq/query.c and src/timer/query.c: both files
-- have the same `open_fd`. What libudev finds and what `open` gives are parameters.
use alsa_gobject.Base.{ℕ, Bool, true, false, if◌then◌else◌, Option, none, some, List, [], ◌∷◌}
use alsa_gobject.Platform.{
  Platform, Reply, answer, errno, GError, Ended, success, failure, Outcome, fault, ended,
  generate_file_error,
}

-- The queries have no error domain of their own.
pub data NoCode : Type 0 where

-- The end of a query, and the descriptors that it has closed, in order.
pub record Session (A : Type 0) : Type 0 where
  pub closed : List ℕ
  pub outcome : Outcome NoCode A

-- The truth of what `open_fd` returns, the descriptor where one is stored, and the error.
pub record Opened : Type 0 where
  pub truth : Bool
  pub fd : Option ℕ
  pub error : Option (GError NoCode)

abbrev pub finish : {A : Type 0} → ℕ → Ended NoCode A → Session A
finish fd end = record { closed = fd ∷ []; outcome = ended end }

-- A caller of `open_fd` uses the descriptor where the returned value is true; to use one that is not
-- stored is undefined.
abbrev pub with_fd : {A : Type 0} → Opened → (ℕ → Session A) → Session A
with_fd o body =
    if o.truth
    then (elim (o.fd) [ none ↦ record { closed = []; outcome = fault } | some fd ↦ body fd ])
    else record { closed = []; outcome = ended (failure (o.error)) }

module _ (p : Platform) where
  -- What is looked up under the sound subsystem, such as a name.
  unfoldable pub look_up : {A : Type 0} → Reply A → Ended NoCode A
  look_up (answer name) = success name
  look_up (errno e) = failure (some (generate_file_error p e))

  unfoldable pub open_fd : Reply (List ℕ) → (List ℕ → Reply ℕ) → Opened
  open_fd node open_node = elim (look_up node) [
    -- The value returned here is -1, which is true.
    | failure error ↦ record { truth = true; fd = none; error = error }
    | success devname ↦ elim (open_node devname) [
      | errno e ↦ record { truth = false; fd = none; error = some (generate_file_error p e) }
      | answer fd ↦ record { truth = true; fd = some fd; error = none }
    ]
  ]

  -- One `ioctl` of the query, whose reply decides on the result, before the descriptor is closed.
  abbrev pub ask : {A B : Type 0} → (A → B) → ℕ → Reply A → Session B
  ask f fd (answer a) = finish fd (success (f a))
  ask f fd (errno e) = finish fd (failure (some (generate_file_error p e)))
