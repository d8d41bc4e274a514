-- ===== src/Source/Config.antt =====
-- crates/subdex-source/src/config.rs. A `Duration` is its number of nanoseconds.
use subdex.Prelude.{ℕ, ◌*◌, ◌/◌, ◌%◌, ◌^◌, min, max, String, Bool, true, false, u64_max}

abbrev pub Duration : Type 0
Duration = ℕ

abbrev pub nanos_per_milli : ℕ
nanos_per_milli = 1000000

abbrev pub from_millis : ℕ → Duration
from_millis n = n * nanos_per_milli

-- `d.as_millis() as u64`
abbrev pub as_millis : Duration → ℕ
as_millis d = (d / nanos_per_milli) % 2 ^ 64

pub record RetryConfig : Type 0 where
  pub max_retries : ℕ
  pub base_delay : Duration
  pub max_delay : Duration

abbrev pub default_retry : RetryConfig
default_retry = record {
  max_retries = 5;
  base_delay = from_millis 250;
  max_delay = from_millis 30000;
}

abbrev pub disabled : RetryConfig
disabled = record { max_retries = 0; base_delay = 0; max_delay = 0 }

unfoldable pub backoff : RetryConfig → ℕ → Duration
backoff cfg attempt =
    let factor = min (2 ^ attempt) u64_max in
    let millis = min (as_millis cfg.base_delay * factor) u64_max in
    min (from_millis millis) cfg.max_delay

pub record DataSelection : Type 0 where
  pub events : Bool
  pub extrinsics : Bool

abbrev pub default_selection : DataSelection
default_selection = record { events = true; extrinsics = true }

abbrev pub events_only : DataSelection
events_only = record { events = true; extrinsics = false }

abbrev pub extrinsics_only : DataSelection
extrinsics_only = record { events = false; extrinsics = true }

pub record SourceConfig : Type 0 where
  pub url : String
  pub batch_size : ℕ
  pub concurrency : ℕ
  pub selection : DataSelection
  pub retry : RetryConfig
  pub ss58_prefix : ℕ
  pub strict : Bool

abbrev pub new : String → SourceConfig
new url = record {
  url = url;
  batch_size = 100;
  concurrency = 16;
  selection = default_selection;
  retry = default_retry;
  ss58_prefix = 42;
  strict = false;
}

abbrev pub with_selection : DataSelection → SourceConfig → SourceConfig
with_selection selection c = record c { selection = selection }

abbrev pub with_retry : RetryConfig → SourceConfig → SourceConfig
with_retry retry c = record c { retry = retry }

unfoldable pub with_batch_size : ℕ → SourceConfig → SourceConfig
with_batch_size batch_size c = record c { batch_size = max batch_size 1 }

unfoldable pub with_concurrency : ℕ → SourceConfig → SourceConfig
with_concurrency concurrency c = record c { concurrency = max concurrency 1 }

abbrev pub with_ss58_prefix : ℕ → SourceConfig → SourceConfig
with_ss58_prefix prefix c = record c { ss58_prefix = prefix }

abbrev pub with_strict : Bool → SourceConfig → SourceConfig
with_strict strict c = record c { strict = strict }
