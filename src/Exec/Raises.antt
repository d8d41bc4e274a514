-- ===== src/Exec/Raises.antt =====
-- An outcome is a known error, and the state beside it satisfies a postcondition.
use subdex.Prelude.{◌≡◌, refl, sym, subst}
use subdex.Core.Error.{SubdexError, Result, err}
use subdex.Exec.{Exec, continue, continue-ok, continue-err}
use subdex.Exec.Runs.{Runs}

pub record Raises {W A : Type 0} (x : SubdexError) (P : W → Type 0) (r : Result A × W)
    : Type 0 where
  pub state : W
  pub eq : r ≡ (err x, state)
  pub post : P state

module _ {W A : Type 0} {x : SubdexError} where
  pub Raises-raise : {P : W → Type 0} (w : W) → P w → Raises {A = A} x P (err x, w)
  Raises-raise w h = record { state = w; eq = refl; post = h }

  pub Raises-map :
      {P Q : W → Type 0} {r : Result A × W} → Raises x P r → ((w : W) → P w → Q w) → Raises x Q r
  Raises-map h f = record { state = h.state; eq = h.eq; post = f h.state h.post }

module _ {W A B : Type 0} {x : SubdexError} {P : W → Type 0} where
  -- The error comes at once.
  pub Raises-first :
      (r : Result A × W) (f : A → Exec W B) → Raises x P r → Raises x P (continue r f)
  Raises-first r f h = record { state = h.state; eq = continue-err r f h.eq; post = h.post }

  -- The error comes after a step that succeeds.
  pub Raises-then :
      {Q : A → W → Type 0} (r : Result A × W) (f : A → Exec W B)
      → Runs r Q
      → ((a : A) (w : W) → Q a w → Raises x P (f a w))
      → Raises x P (continue r f)
  Raises-then r f h k = subst (Raises x P) (sym (continue-ok r f h.eq)) (k h.value h.state h.post)
