-- ===== src/Settings/Ends.antt =====
-- How a step of the configuration ends: `Q` of its value, or `F` of its error.
use subdex.Prelude.{◌≡◌, refl, subst}
use subdex.Settings.{ConfigError, ConfigResult, ◌>>=◌}

module _ {A : Type 0} (F : ConfigError → Type 0) (Q : A → Type 0) where
  unfoldable pub Ends : ConfigResult A → Type 0
  Ends (ConfigResult.ok a) = Q a
  Ends (ConfigResult.err e) = F e

  pub Ends-ok : (r : ConfigResult A) (a : A) → Ends r → r ≡ ConfigResult.ok a → Q a
  unfolding Ends
  Ends-ok r a h e = subst Ends e h

  pub Ends-err : (r : ConfigResult A) (x : ConfigError) → Ends r → r ≡ ConfigResult.err x → F x
  unfolding Ends
  Ends-err r x h e = subst Ends e h

module _ {A B : Type 0} (F : ConfigError → Type 0) (Q : B → Type 0) (R : A → Type 0) where
  pub Ends-bind :
      (r : ConfigResult A) (f : A → ConfigResult B)
      → Ends F R r
      → ((a : A) → R a → Ends F Q (f a))
      → Ends F Q (r >>= f)
  unfolding Ends ◌>>=◌
  Ends-bind (ConfigResult.ok a) f h k = k a h
  Ends-bind (ConfigResult.err e) f h k = h

module _ {A : Type 0} (F : ConfigError → Type 0) (Q : A → Type 0) where
  -- The value is that of the step.
  pub Ends-self : (r : ConfigResult A) → Ends F Q r → Ends F (λ a. (r ≡ ConfigResult.ok a) × Q a) r
  unfolding Ends
  Ends-self (ConfigResult.ok a) h = (refl, h)
  Ends-self (ConfigResult.err e) h = h

  pub Ends-map :
      (G : ConfigError → Type 0) (r : ConfigResult A)
      → Ends F Q r
      → ((e : ConfigError) → F e → G e)
      → Ends G Q r
  unfolding Ends
  Ends-map G (ConfigResult.ok a) h g = h
  Ends-map G (ConfigResult.err e) h g = g e h

  pub Ends-any : (r : ConfigResult A) → Ends F Q r → Ends F (λ _. Unit {0}) r
  unfolding Ends
  Ends-any (ConfigResult.ok a) h = tt
  Ends-any (ConfigResult.err e) h = h
