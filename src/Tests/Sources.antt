-- ===== src/Tests/Sources.antt =====
-- The sources, and retries of an operation that fails some number of times.
use subdex.Prelude.{ℕ, zero, suc, ◌≤◌, ◌*◌, ◌/◌, ◌≡◌, refl, some, [], arith}
use subdex.Core.Error.{SubdexError, ok, err}
use subdex.Exec.{Exec}
use subdex.Source.Config.{backoff, default_retry, nanos_per_milli, from_millis}
use subdex.Source.Retry.{retry_async, retry_loop, retry_round, is_transient, jitter}
use subdex.Source.Retry.Attempts.{StopsAt, retry_async_lem}
use subdex.Source.Retry.Delays.{jitter-backoff}

abbrev timeout : SubdexError
timeout = SubdexError.source "timeout"

-- It fails while the count is not 0, and counts down.
abbrev flaky : Exec ℕ ℕ
flaky zero = (ok 42, zero)
flaky (suc n) = (err timeout, n)

flaky_run : (retry_async default_retry (λ n. 0) flaky 6 2).0 ≡ some (ok 42)
unfolding retry_loop retry_round is_transient jitter backoff
flaky_run = refl

retry_async_lem_example :
    (k : ℕ) × StopsAt default_retry
      (λ n. 0)
      flaky
      k
      5
      2
      []
      (retry_async default_retry (λ n. 0) flaky 6 2)
retry_async_lem_example = retry_async_lem default_retry (λ n. 0) flaky 5 2 (omega arith)

jitter-backoff_example :
    (from_millis (backoff default_retry 3 / nanos_per_milli) ≤ jitter (backoff default_retry 3) 999)
    × (4 * jitter (backoff default_retry 3) 999 ≤ 5 * from_millis 30000)
jitter-backoff_example = jitter-backoff default_retry 3 999 (unfold backoff in omega arith)
