-- ===== src/Source/Retry.antt =====
-- crates/subdex-source/src/retry.rs. The clock that seeds the jitter is a parameter, its reading at
-- each attempt; the sleeps are recorded beside the state that the operation works on.
pub mod Attempts
pub mod Delays
pub mod Recovers
use subdex.Prelude.{
  ℕ, zero, suc, ◌+◌, ◌*◌, ◌/◌, ◌%◌, min, Bool, true, false, not, ◌||◌, Option, none, some, List, [],
  ◌∷◌, ◌++◌, leb, ◌==◌, if◌then◌else◌, u64_max,
}
use subdex.Core.Error.{SubdexError, Result, ok, err}
use subdex.Exec.{Exec}
use subdex.Source.Config.{Duration, RetryConfig, backoff, as_millis, from_millis}

unfoldable pub is_transient : SubdexError → Bool
is_transient (SubdexError.source m) = true
is_transient _ = false

unfoldable pub jitter : Duration → ℕ → Duration
jitter delay now_nanos =
    if delay == 0
    then delay
    else (let base = as_millis delay in
        let extra = min ((base / 4) * (now_nanos % 1000)) u64_max / 1000 in
        from_millis (min (base + extra) u64_max))

-- A retry gives up where the error is not transient or the budget is spent.
abbrev pub gives_up : RetryConfig → SubdexError → ℕ → Bool
gives_up cfg e attempt = not (is_transient e) || leb cfg.max_retries attempt

module _ {W A : Type 0} (cfg : RetryConfig) (clock : ℕ → ℕ) where
  -- The `match` on what an attempt gave; `again` is the loop after the sleep.
  unfoldable pub retry_round :
      Result A × W
      → ℕ
      → List Duration
      → (W → List Duration → Option (Result A) × W × List Duration)
      → Option (Result A) × W × List Duration
  retry_round (ok v, w) attempt slept again = (some (ok v), w, slept)
  retry_round (err e, w) attempt slept again =
      if gives_up cfg e attempt
      then (some (err e), w, slept)
      else again w (slept ++ (jitter (backoff cfg attempt) (clock attempt) ∷ []))

module _ {W A : Type 0} (cfg : RetryConfig) (clock : ℕ → ℕ) (op : Exec W A) where
  -- The `loop`, on fuel; `none` is that it ran out.
  unfoldable pub retry_loop : ℕ → ℕ → W → List Duration → Option (Result A) × W × List Duration
  retry_loop zero attempt w slept = (none, w, slept)
  retry_loop (suc fuel) attempt w slept =
      retry_round cfg clock (op w) attempt slept
        (λ w' slept'. retry_loop fuel (suc attempt) w' slept')

  abbrev pub retry_async : ℕ → W → Option (Result A) × W × List Duration
  retry_async fuel w = retry_loop fuel 0 w []
