-- ===== src/Base/Sets.antt =====
-- Sets of numbers, as the lists that they are made of.
use Prim.Native.Nat.{ℕ, zero, suc}
use mathlib.Core.Path.{◌≡◌, refl}
use mathlib.Core.Bool.{Bool, true, false, ◌||◌}
use mathlib.Core.List.{List, [], ◌∷◌}
use alsa_gobject.Base.Tests.{◌==◌, if◌then◌else◌}

-- Whether a number is among some numbers.
abbrev pub among : ℕ → List ℕ → Bool
among i [] = false
among i (t ∷ ts) = (t == i) || among i ts

-- The numbers from one on, of some that follow, that are among some numbers, in ascending order and each once.
abbrev pub members : List ℕ → ℕ → ℕ → List ℕ
members ts zero i = []
members ts (suc left) i =
    if among i ts then i ∷ members ts left (suc i) else members ts left (suc i)

pub or_swap : (a b c : Bool) → (a || (b || c)) ≡ ((b || a) || c)
or_swap true true c = refl
or_swap true false c = refl
or_swap false true c = refl
or_swap false false c = refl

pub or_false : (a : Bool) → (a || false) ≡ a
or_false true = refl
or_false false = refl
