-- ===== src/Exec/Fails.antt =====
-- What holds of the state that an error leaves.
use subdex.Prelude.{◌≡◌, refl}
use subdex.Core.Error.{SubdexError, Result, ok, err}
use subdex.Exec.{Exec, continue, inspect}

pub record Fails {W A : Type 0} (r : Result A × W) (P : W → Type 0) : Type 0 where
  pub at : (e : SubdexError) → r.0 ≡ err e → P r.1

module _ {W A : Type 0} {P : W → Type 0} where
  pub Fails-ok : (a : A) (w : W) → Fails (ok a, w) P
  Fails-ok a w = record { at = λ e h. cc }

  pub Fails-err : (x : SubdexError) (w : W) → P w → Fails {A = A} (err x, w) P
  Fails-err x w h = record { at = λ e _. h }

  pub Fails-inspect :
      (f : SubdexError → W → W) (r : Result A × W)
      → ((e : SubdexError) → r.0 ≡ err e → P (f e r.1))
      → Fails (inspect f r) P
  unfolding inspect
  Fails-inspect f (ok a, w) h = record { at = λ e x. cc }
  Fails-inspect f (err x, w) h = record { at = λ e _. h x refl }

module _ {W A B : Type 0} {P : W → Type 0} where
  pub Fails-bind :
      (r : Result A × W) (f : A → Exec W B)
      → Fails r P
      → ((a : A) (w : W) → r ≡ (ok a, w) → Fails (f a w) P)
      → Fails (continue r f) P
  unfolding continue
  Fails-bind (ok a, w) f h k = k a w refl
  Fails-bind (err x, w) f h k = record { at = λ e _. h.at x refl }

  -- A step that keeps `P` whatever it ends in.
  pub Fails-step :
      (r : Result A × W) (f : A → Exec W B)
      → P r.1
      → ((a : A) (w : W) → P w → Fails (f a w) P)
      → Fails (continue r f) P
  unfolding continue
  Fails-step (ok a, w) f h k = k a w h
  Fails-step (err x, w) f h k = record { at = λ e _. h }
