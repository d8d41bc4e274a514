-- ===== src/Codegen/Parse/Gives.antt =====
-- What holds of a result where there is one.
use subdex.Prelude.{◌≡◌, subst}
use subdex.Codegen.Parse.{ParseResult, ◌>>=◌}

module _ {A : Type 0} (P : A → Type 0) where
  unfoldable pub Gives : ParseResult A → Type 0
  Gives (ParseResult.ok a) = P a
  Gives (ParseResult.err e) = Unit

  pub Gives-ok : (r : ParseResult A) (a : A) → Gives r → r ≡ ParseResult.ok a → P a
  unfolding Gives
  Gives-ok r a h e = subst Gives e h

module _ {A B : Type 0} (P : A → Type 0) (Q : B → Type 0) where
  pub Gives-bind :
      (r : ParseResult A) (f : A → ParseResult B)
      → Gives P r
      → ((a : A) → P a → Gives Q (f a))
      → Gives Q (r >>= f)
  unfolding Gives ◌>>=◌
  Gives-bind (ParseResult.ok a) f h k = k a h
  Gives-bind (ParseResult.err e) f h k = tt
