-- ===== src/Exec/Runs.antt =====
-- Total correctness: an outcome is a value, and the value and the state satisfy a postcondition.
use subdex.Prelude.{◌≡◌, refl, sym, subst}
use subdex.Core.Error.{Result, ok, SubdexError}
use subdex.Exec.{Exec, continue, continue-ok, inspect}

pub record Runs {W A : Type 0} (r : Result A × W) (Q : A → W → Type 0) : Type 0 where
  pub value : A
  pub state : W
  pub eq : r ≡ (ok value, state)
  pub post : Q value state

module _ {W A : Type 0} where
  pub Runs-pure : {Q : A → W → Type 0} (a : A) (w : W) → Q a w → Runs (ok a, w) Q
  Runs-pure a w h = record { value = a; state = w; eq = refl; post = h }

  -- From the two halves of an outcome.
  pub Runs-halves :
      {Q : A → W → Type 0} (r : Result A × W) {a : A} → r.0 ≡ ok a → Q a r.1 → Runs r Q
  Runs-halves (x, w) {a} e h = record { value = a; state = w; eq = λ i. (e i, w); post = h }

  pub Runs-map :
      {P Q : A → W → Type 0} {r : Result A × W}
      → Runs r P
      → ((a : A) (w : W) → P a w → Q a w)
      → Runs r Q
  Runs-map h f = record {
    value = h.value;
    state = h.state;
    eq = h.eq;
    post = f h.value h.state h.post;
  }

  pub Runs-inspect :
      {Q : A → W → Type 0} (f : SubdexError → W → W) (r : Result A × W)
      → Runs r Q
      → Runs (inspect f r) Q
  unfolding inspect
  Runs-inspect f r h = record {
    value = h.value;
    state = h.state;
    eq = rw (h.eq) refl;
    post = h.post;
  }

module _ {W A B : Type 0} where
  pub Runs-bind :
      {P : A → W → Type 0} {Q : B → W → Type 0} (r : Result A × W) (f : A → Exec W B)
      → Runs r P
      → ((a : A) (w : W) → P a w → Runs (f a w) Q)
      → Runs (continue r f) Q
  Runs-bind {Q} r f h k =
      subst (λ x. Runs x Q) (sym (continue-ok r f h.eq)) (k h.value h.state h.post)

  -- A step that cannot fail.
  pub Runs-ok :
      {Q : B → W → Type 0} (a : A) (w : W) (f : A → Exec W B)
      → Runs (f a w) Q
      → Runs (continue (ok a, w) f) Q
  unfolding continue
  Runs-ok a w f h = h
