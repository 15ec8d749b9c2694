-- ===== src/Platform.antt =====
-- What the sources take from the C library and from GLib: error numbers, the conversion of an error
-- number to a code of `G_FILE_ERROR`, and the end of a function that may fill a `GError`.
use alsa_gobject.Base.{ℕ, Option, if◌then◌else◌, ◌==◌, ◌≡◌, refl, ◌⊎◌, inl, inr}

-- The values of `errno.h` and of GLib are parameters.
pub record Platform : Type 0 where
  pub enoent : ℕ
  pub eperm : ℕ
  pub eagain : ℕ
  pub ebusy : ℕ
  pub enodev : ℕ
  pub ebadfd : ℕ
  pub einval : ℕ
  pub erange : ℕ
  pub enodata : ℕ
  pub eproto : ℕ
  pub file_error_from_errno : ℕ → ℕ
  pub file_error_failed : ℕ

-- A `GError`: of the domain `G_FILE_ERROR` with its code, or of the domain of the class.
pub data GError (Code : Type 0) : Type 0 where
  file : ℕ → GError Code
  local : Code → GError Code

-- TRUE with what is given out, or FALSE with the error that is set, if one is.
pub data Ended (Code A : Type 0) : Type 0 where
  success : A → Ended Code A
  failure : Option (GError Code) → Ended Code A

-- The end of a call, or undefined behaviour.
pub data Outcome (Code A : Type 0) : Type 0 where
  fault : Outcome Code A
  ended : Ended Code A → Outcome Code A

-- A system call: its result, or the error number.
pub data Reply (A : Type 0) : Type 0 where
  answer : A → Reply A
  errno : ℕ → Reply A

pub Reply-cases :
    {A : Type 0} (r : Reply A) → ((e : ℕ) × (r ≡ errno e)) ⊎ ((a : A) × (r ≡ answer a))
Reply-cases (answer a) = inr (a, refl)
Reply-cases (errno e) = inl (e, refl)

-- The macro `generate_file_error`.
abbrev pub generate_file_error : {Code : Type 0} → Platform → ℕ → GError Code
generate_file_error p e = file (p.file_error_from_errno e)

-- The branch after a failed `write` of src/seq: a code of `G_FILE_ERROR` where there is one.
abbrev pub file_or_failed : {Code : Type 0} → Platform → Code → ℕ → GError Code
file_or_failed p failed e =
    if p.file_error_from_errno e == p.file_error_failed
    then local failed
    else generate_file_error p e

-- The same branch after a failed `open`: the macro is given the code in place of the error number.
abbrev pub file_or_failed_twice : {Code : Type 0} → Platform → Code → ℕ → GError Code
file_or_failed_twice p failed e =
    let code = p.file_error_from_errno e in
    if code == p.file_error_failed then local failed else generate_file_error p code
