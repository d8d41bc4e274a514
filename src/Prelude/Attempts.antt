-- ===== src/Prelude/Attempts.antt =====
-- What a call of a library gives: a value, or the text of its error.
use Prim.Native.String.{String}
use mathlib.Core.Path.{◌≡◌, refl}
use mathlib.Core.Logic.{◌⊎◌, inl, inr}

pub data Attempt (A : Type 0) : Type 0 where
  got : A → Attempt A
  lost : String → Attempt A

pub Attempt-cases :
    {A : Type 0} (r : Attempt A)
    → ((a : A) × (r ≡ Attempt.got a)) ⊎ ((m : String) × (r ≡ Attempt.lost m))
Attempt-cases (Attempt.got a) = inl (a, refl)
Attempt-cases (Attempt.lost m) = inr (m, refl)
