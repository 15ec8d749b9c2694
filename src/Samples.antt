-- ===== src/Samples.antt =====
-- The error numbers of Linux and a reference count, for runs at concrete values.
use alsa_gobject.Base.{ℕ, zero, suc, if◌then◌else◌, ◌==◌, List, ◌++◌, ap}
use alsa_gobject.Lifetime.{Live, IsUnref}
use alsa_gobject.Platform.{Platform}

abbrev pub platform : Platform
platform = record {
  enoent = 2;
  eperm = 1;
  eagain = 11;
  ebusy = 16;
  enodev = 19;
  ebadfd = 77;
  einval = 22;
  erange = 34;
  enodata = 61;
  eproto = 71;
  file_error_from_errno = λ e. if e == 2 then 4 else 24;
  file_error_failed = 24;
}

-- A reference count that finalizes an object with its last reference.
abbrev unref_at : {A : Type 0} → (A → List ℕ) → Live A → ℕ → Live A
unref_at finalize w zero = w
unref_at finalize w (suc zero) = record w {
  references = 0;
  closed = finalize (w.object) ++ w.closed;
}
unref_at finalize w (suc (suc n)) = record w { references = suc n }

abbrev pub counting : {A : Type 0} → (A → List ℕ) → Live A → Live A
counting finalize w = unref_at finalize w (w.references)

pub counting-IsUnref : {A : Type 0} → (finalize : A → List ℕ) → IsUnref finalize (counting finalize)
counting-IsUnref finalize = record {
  kept = λ w n e. ap (unref_at finalize w) e;
  last = λ w e. ap (unref_at finalize w) e;
}
