-- ===== src/Source/Retry/Attempts.antt =====
-- How often `retry_async` tries, and what it returns.
use subdex.Prelude.{
  ℕ, zero, suc, ◌+◌, ◌-◌, ◌<◌, ◌≤◌, ◌≡◌, refl, ap, subst, true, false, Option, some, List, [], ◌∷◌,
  ◌++◌, length, length-append, arith, Bool-cases, inl, inr, ◌⊎◌,
}
use subdex.Core.Error.{SubdexError, Result, ok, err}
use subdex.Exec.{Exec}
use subdex.Source.Config.{Duration, RetryConfig, backoff}
use subdex.Source.Retry.{is_transient, jitter, gives_up, retry_round, retry_loop, retry_async}

module _ {W A : Type 0} (op : Exec W A) where
  -- The state after some calls.
  abbrev pub after : ℕ → W → W
  after zero w = w
  after (suc k) w = after k (op w).1

  -- The outcome of the call after `k` others.
  abbrev pub outcome : ℕ → W → Result A
  outcome k w = (op (after k w)).0

  -- `k` calls in a row fail with transient errors.
  abbrev pub FailFirst : ℕ → W → Type 0
  FailFirst k w =
      (j : ℕ) → j < k → (e : SubdexError) × (outcome j w ≡ err e) × (is_transient e ≡ true)

-- The outcome is one that the loop does not retry, with `left` retries left.
abbrev pub IsFinal : {A : Type 0} → ℕ → Result A → Type 0
IsFinal left (ok v) = Unit
IsFinal left (err e) = (is_transient e ≡ false) ⊎ (left ≡ 0)

module _ {W A : Type 0} (cfg : RetryConfig) (clock : ℕ → ℕ) (op : Exec W A) where
  -- The loop ends at a call after `k` others, with that call's outcome and state.
  pub record StopsAt (k budget : ℕ) (w : W) (slept : List Duration)
      (r : Option (Result A) × W × List Duration) : Type 0 where
    pub within : k ≤ budget
    pub failed_first : FailFirst op k w
    pub final : IsFinal (budget - k) (outcome op k w)
    pub result : r.0 ≡ some (outcome op k w)
    pub state : r.1 ≡ after op (suc k) w
    pub sleeps : length r.2 ≡ length slept + k

  FailFirst-suc :
      (k : ℕ) (w u : W) (e : SubdexError)
      → op w ≡ (err e, u)
      → is_transient e ≡ true
      → FailFirst op k u
      → FailFirst op (suc k) w
  FailFirst-suc k w u e eq known h zero lt = (e, ap (λ x. x.0) eq, known)
  FailFirst-suc k w u e eq known h (suc j) lt = rw (eq, outcome, after) (h j (omega arith))

  StopsAt-suc :
      (k budget left : ℕ) (w u : W) (e : SubdexError) (slept : List Duration) (d : Duration)
      (r : Option (Result A) × W × List Duration)
      → op w ≡ (err e, u)
      → is_transient e ≡ true
      → budget ≡ suc left
      → StopsAt k left u (slept ++ (d ∷ [])) r
      → StopsAt (suc k) budget w slept r
  StopsAt-suc k budget left w u e slept d r eq known b h = record {
    within = omega (arith, h.within);
    failed_first = FailFirst-suc k w u e eq known h.failed_first;
    final =
        let same : left - k ≡ budget - suc k = omega arith in
        subst (λ n. IsFinal n (outcome op (suc k) w)) same (rw (eq, outcome, after) h.final);
    result = rw (eq, outcome, after) h.result;
    state = rw (eq, after) h.state;
    sleeps = omega (arith, h.sleeps, length-append slept (d ∷ []));
  }

  StopsAt-zero :
      (budget : ℕ) (w u : W) (o : Result A) (slept : List Duration)
      → op w ≡ (o, u)
      → IsFinal budget o
      → StopsAt 0 budget w slept (some o, u, slept)
  StopsAt-zero budget w u o slept eq f = record {
    within = omega arith;
    failed_first = λ j lt. absurd (omega arith);
    final =
        let same : budget ≡ budget - 0 = omega arith in
        subst (λ n. IsFinal n (outcome op 0 w)) same (rw (eq, outcome, after) f);
    result = rw (eq, outcome, after) refl;
    state = rw (eq, after) refl;
    sleeps = omega arith;
  }

  IsFinal-gives_up :
      (e : SubdexError) (attempt : ℕ)
      → gives_up cfg e attempt ≡ true
      → IsFinal {A = A} (cfg.max_retries - attempt) (err e)
  IsFinal-gives_up e attempt h = elim (Bool-cases (is_transient e)) [
    | inl t ↦ inr (ground arith)
    | inr t ↦ inl t
  ]

  StopsAt-step :
      (attempt : ℕ) (slept : List Duration) (r : Result A × W) (w : W)
      (again : W → List Duration → Option (Result A) × W × List Duration)
      → op w ≡ r
      → (attempt < cfg.max_retries
          → (w' : W) (s : List Duration)
          → (k : ℕ) × StopsAt k (cfg.max_retries - suc attempt) w' s (again w' s))
      → (k : ℕ) × StopsAt k
          (cfg.max_retries - attempt)
          w
          slept
          (retry_round cfg clock r attempt slept again)
  unfolding retry_round
  StopsAt-step attempt slept (ok v, u) w again eq rest =
      (0, StopsAt-zero (cfg.max_retries - attempt) w u (ok v) slept eq tt)
  StopsAt-step attempt slept (err e, u) w again eq rest =
      elim (Bool-cases (gives_up cfg e attempt)) [
        | inl b ↦ (
          0,
          rw b (
              StopsAt-zero (cfg.max_retries - attempt) w u (err e) slept eq
                (IsFinal-gives_up e attempt b)),
        )
        | inr b ↦
            let known : is_transient e ≡ true = ground arith in
            let more : attempt < cfg.max_retries = ground arith in
            let (k, h) =
              rest more u (slept ++ (jitter (backoff cfg attempt) (clock attempt) ∷ [])) in
            (
              suc k,
              rw b (
                  StopsAt-suc k (cfg.max_retries - attempt) (cfg.max_retries - suc attempt) w u e
                    slept (jitter (backoff cfg attempt) (clock attempt))
                    (again u (slept ++ (jitter (backoff cfg attempt) (clock attempt) ∷ []))) eq
                    known (omega arith) h),
            )
      ]

  StopsAt-loop :
      (fuel attempt : ℕ) (w : W) (slept : List Duration)
      → cfg.max_retries ≤ attempt + fuel
      → (k : ℕ) × StopsAt k
          (cfg.max_retries - attempt)
          w
          slept
          (retry_loop cfg clock op (suc fuel) attempt w slept)
  unfolding retry_loop
  StopsAt-loop zero attempt w slept le =
      StopsAt-step attempt slept (op w) w _ refl (λ more. absurd (omega arith))
  StopsAt-loop (suc fuel) attempt w slept le =
      StopsAt-step attempt slept (op w) w _ refl
        (λ more w' s. StopsAt-loop fuel (suc attempt) w' s (omega arith))

  -- With one round of fuel more than `max_retries`, `retry_async` ends at some call, at most
  -- `max_retries` after the first, with that call's outcome and state. All calls before it failed
  -- with transient errors, it did not, or `max_retries` calls came before it, and there was one sleep
  -- for each call before it.
  pub retry_async_lem :
      (fuel : ℕ) (w : W)
      → cfg.max_retries ≤ fuel
      → (k : ℕ) × StopsAt k cfg.max_retries w [] (retry_async cfg clock op (suc fuel) w)
  retry_async_lem fuel w le =
      subst (λ n. (k : ℕ) × StopsAt k n w [] (retry_async cfg clock op (suc fuel) w)) (omega arith)
        (StopsAt-loop fuel 0 w [] (omega arith))
