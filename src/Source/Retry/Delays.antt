-- ===== src/Source/Retry/Delays.antt =====
-- How long the sleeps of `retry_async` are.
use native.Mathlib.Nat
use subdex.Prelude.{
  ℕ, ◌*◌, ◌/◌, ◌%◌, ◌^◌, ◌≤◌, ◌<◌, min, ◌==◌, arith, Bool-cases, inl, inr, u64_max,
}
use subdex.Source.Config.{RetryConfig, backoff, as_millis, from_millis, nanos_per_milli}
use subdex.Source.Retry.{jitter}

-- The part that the clock adds.
extra-le : (base r : ℕ) → r < 1000 → min (base * r) u64_max / 1000 ≤ base
extra-le base r lt =
    let lim : r ≤ 1000 = omega arith in
    let grows = Nat.mul-le-mul_left base lim in Nat.div-le_of_le-mul 1000 (omega (arith, grows))

jitter-le : (delay now : ℕ) → 4 * jitter delay now ≤ 5 * delay
unfolding jitter
jitter-le delay now = elim (Bool-cases (delay == 0)) [
  | inl b ↦ rw b (omega arith)
  | inr b ↦
      let small = extra-le (as_millis delay / 4) (now % 1000) (omega arith) in
      rw b (omega (arith, small))
]

jitter-ge :
    (delay now : ℕ)
    → delay / nanos_per_milli < 2 ^ 64
    → from_millis (delay / nanos_per_milli) ≤ jitter delay now
unfolding jitter
jitter-ge delay now fits = elim (Bool-cases (delay == 0)) [
  | inl b ↦ rw b (omega arith)
  | inr b ↦ rw b (omega arith)
]

-- Where the backoff is below 2^64 milliseconds, a sleep is not shorter than its whole milliseconds,
-- and at most a quarter longer than `max_delay`, whatever the clock reads.
pub jitter-backoff :
    (cfg : RetryConfig) (attempt now : ℕ)
    → backoff cfg attempt / nanos_per_milli < 2 ^ 64
    → (from_millis (backoff cfg attempt / nanos_per_milli) ≤ jitter (backoff cfg attempt) now)
      × (4 * jitter (backoff cfg attempt) now ≤ 5 * cfg.max_delay)
unfolding backoff
jitter-backoff cfg attempt now fits =
    let le = jitter-le (backoff cfg attempt) now in
    (jitter-ge (backoff cfg attempt) now fits, omega (arith, le))
