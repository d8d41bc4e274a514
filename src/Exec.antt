-- ===== src/Exec.antt =====
-- The asynchronous methods: an action on a state that ends in a value or in an error. What was
-- changed before the error stays changed, so the state comes back beside the error too.
pub mod Runs
pub mod Fails
pub mod Ends
pub mod Raises
use subdex.Prelude.{◌≡◌, refl}
use subdex.Core.Error.{SubdexError, Result, ok, err}

abbrev pub Exec : Type 0 → Type 0 → Type 0
Exec W A = W → Result A × W

module _ {W A : Type 0} where
  abbrev pub pure : A → Exec W A
  pure a w = (ok a, w)

  abbrev pub raise : SubdexError → Exec W A
  raise e w = (err e, w)

module _ {W A B : Type 0} where
  -- What `?` does with the outcome of an awaited call.
  unfoldable pub continue : Result A × W → (A → Exec W B) → Result B × W
  continue (ok a, w) f = f a w
  continue (err e, w) f = (err e, w)

  infixl 5 ◌>>=◌
  abbrev pub ◌>>=◌ : Exec W A → (A → Exec W B) → Exec W B
  ◌>>=◌ m f w = continue (m w) f

  pub continue-ok :
      (r : Result A × W) (f : A → Exec W B) {a : A} {w : W} → r ≡ (ok a, w) → continue r f ≡ f a w
  unfolding continue
  continue-ok r f e = rw e

  pub continue-err :
      (r : Result A × W) (f : A → Exec W B) {x : SubdexError} {w : W}
      → r ≡ (err x, w)
      → continue r f ≡ (err x, w)
  unfolding continue
  continue-err r f e = rw e

module _ {W B : Type 0} where
  infixl 5 ◌>>◌
  abbrev pub ◌>>◌ : Exec W (Unit {0}) → Exec W B → Exec W B
  m >> k = m >>= λ _. k

-- `r.inspect_err(f)`: the outcome, with `f` told of an error.
module _ {W A : Type 0} (f : SubdexError → W → W) where
  unfoldable pub inspect : Result A × W → Result A × W
  inspect (ok a, w) = (ok a, w)
  inspect (err e, w) = (err e, f e w)

  abbrev pub inspect_err : Exec W A → Exec W A
  inspect_err m w = inspect (m w)
