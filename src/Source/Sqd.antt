-- ===== src/Source/Sqd.antt =====
-- crates/subdex-source/src/sqd: the portal's configuration and `SqdPortalSource` of mod.rs. Sleeps between
-- retries are forgotten; the clock that their jitter reads is a parameter.
pub mod Json
pub mod Signer
pub mod Mapping
pub mod Text
pub mod Client
pub mod Lines
pub mod Portal
use subdex.Prelude.{
  ℕ, ◌-◌, min, max, String, Option, List, [], map, ltb, if◌then◌else◌, saturating_add, Attempt,
}
use subdex.Core.Error.{SubdexError, Result, ok, err}
use subdex.Core.Types.{BlockBatch}
use subdex.Core.Traits.{DataSource}
use subdex.Exec.{Exec, pure, raise, continue, ◌>>=◌}
use subdex.Source.Config.{RetryConfig, DataSelection, default_retry, default_selection}
use subdex.Source.Retry.Recovers.{retried}
use subdex.Source.Value.{Value}
use subdex.Source.Sqd.Mapping.{PortalBlock, map_block}
use subdex.Source.Sqd.Client.{Http, PortalClient, new_client, portal_head, fetch_range}

pub record SqdConfig : Type 0 where
  pub portal_url : String
  pub dataset : String
  pub batch_size : ℕ
  pub selection : DataSelection
  pub retry : RetryConfig
  pub ss58_prefix : ℕ

abbrev pub new_sqd_config : String → String → SqdConfig
new_sqd_config portal_url dataset = record {
  portal_url = portal_url;
  dataset = dataset;
  batch_size = 1000;
  selection = default_selection;
  retry = default_retry;
  ss58_prefix = 42;
}

abbrev pub with_selection : DataSelection → SqdConfig → SqdConfig
with_selection selection c = record c { selection = selection }

unfoldable pub with_batch_size : ℕ → SqdConfig → SqdConfig
with_batch_size batch_size c = record c { batch_size = max batch_size 1 }

abbrev pub with_retry : RetryConfig → SqdConfig → SqdConfig
with_retry retry c = record c { retry = retry }

abbrev pub with_ss58_prefix : ℕ → SqdConfig → SqdConfig
with_ss58_prefix prefix c = record c { ss58_prefix = prefix }

-- What the source calls that is no code of the crate.
pub record Libraries : Type 1 where
  pub http : Http
  pub clock : ℕ → ℕ
  pub from_json : String → Attempt PortalBlock
  pub hex_decode : String → Option (List ℕ)
  pub blake2b_512 : List ℕ → List ℕ
  pub to_base58 : List ℕ → String
  pub number_error : String → String
  pub debug : String → String

pub record SqdPortalSource : Type 0 where
  pub client : PortalClient
  pub config : SqdConfig

unfoldable pub connect : Attempt (Unit {0}) → SqdConfig → Result SqdPortalSource
connect built config = elim (new_client built config.portal_url config.dataset) [
  | ok client ↦ ok (record { client = client; config = config })
  | err e ↦ err e
]

module _ (lib : Libraries) (src : SqdPortalSource) where
  abbrev pub once_head : Exec lib.http.Net ℕ
  once_head = portal_head lib.http src.client lib.number_error lib.debug

  abbrev pub once_range : ℕ → ℕ → Exec lib.http.Net (List PortalBlock)
  once_range from end = fetch_range lib.http src.client lib.from_json from end src.config.selection

  abbrev pub finalized_head : Exec lib.http.Net ℕ
  finalized_head = retried src.config.retry lib.clock once_head

  -- `to.min(from.saturating_add(batch_size.saturating_sub(1)))`
  abbrev pub range_end : ℕ → ℕ → ℕ
  range_end from to = min to (saturating_add from (src.config.batch_size - 1))

  abbrev pub mapped : List PortalBlock → BlockBatch Value
  mapped portal_blocks = record {
    blocks =
        map (λ pb. map_block lib.hex_decode lib.blake2b_512 lib.to_base58 pb src.config.ss58_prefix)
          portal_blocks;
  }

  unfoldable pub fetch_batch : ℕ → ℕ → Exec lib.http.Net (BlockBatch Value)
  fetch_batch from to = if ltb to from then pure (record { blocks = [] }) else (do
    portal_blocks ← retried src.config.retry lib.clock (once_range from (range_end from to))
    pure (mapped portal_blocks))

  abbrev pub next_finalized : Exec lib.http.Net (BlockBatch Value)
  next_finalized = raise (
      SubdexError.source
        "SqdPortalSource is backfill-only: the SQD portal does not stream a live tip for Substrate. Use an RPC source for next_finalized (live follow).")

  abbrev pub sqd_source : DataSource Value
  sqd_source = record {
    Src = lib.http.Net;
    finalized_head = finalized_head;
    fetch_batch = fetch_batch;
    next_finalized = next_finalized;
    name = "sqd-portal";
  }
