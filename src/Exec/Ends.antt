-- ===== src/Exec/Ends.antt =====
-- How a call ends: `Q` of the value and the state after it, or `F` of the state beside an error.
use subdex.Prelude.{◌≡◌, subst}
use subdex.Core.Error.{SubdexError, Result, ok, err}
use subdex.Exec.{Exec, continue, inspect}

module _ {W A : Type 0} (Q : A → W → Type 0) (F : W → Type 0) where
  unfoldable pub Ends : Result A × W → Type 0
  Ends (ok a, w) = Q a w
  Ends (err e, w) = F w

  pub Ends-ok : (r : Result A × W) (a : A) → Ends r → r.0 ≡ ok a → Q a r.1
  unfolding Ends
  Ends-ok (r, w) a h e = subst (λ x. Ends (x, w)) e h

  pub Ends-err : (r : Result A × W) (x : SubdexError) → Ends r → r.0 ≡ err x → F r.1
  unfolding Ends
  Ends-err (r, w) x h e = subst (λ y. Ends (y, w)) e h

module _ {W A B : Type 0} (F : W → Type 0) (Q : B → W → Type 0) (R : A → W → Type 0) where
  pub Ends-bind :
      (r : Result A × W) (f : A → Exec W B)
      → Ends R F r
      → ((a : A) (u : W) → R a u → Ends Q F (f a u))
      → Ends Q F (continue r f)
  unfolding Ends continue
  Ends-bind (ok a, w) f h k = k a w h
  Ends-bind (err e, w) f h k = h

module _ {W A : Type 0} (F G : W → Type 0) (Q R : A → W → Type 0) where
  pub Ends-map :
      (r : Result A × W)
      → Ends Q F r
      → ((a : A) (w : W) → Q a w → R a w)
      → ((w : W) → F w → G w)
      → Ends R G r
  unfolding Ends
  Ends-map (ok a, w) h f g = f a w h
  Ends-map (err e, w) h f g = g w h

module _ {W A : Type 0} (P : W → Type 0) where
  pub Ends-state : (r : Result A × W) → Ends (λ _ w. P w) P r → P r.1
  unfolding Ends
  Ends-state (ok a, w) h = h
  Ends-state (err e, w) h = h

module _ {W A : Type 0} (F : W → Type 0) (Q : A → W → Type 0) where
  pub Ends-inspect :
      (f : SubdexError → W → W) (r : Result A × W)
      → Ends Q F r
      → ((e : SubdexError) (w : W) → F w → F (f e w))
      → Ends Q F (inspect f r)
  unfolding Ends inspect
  Ends-inspect f (ok a, w) h k = h
  Ends-inspect f (err e, w) h k = k e w h
