-- ===== src/Deployed.antt =====
-- The parts together: the engine of crates/subdex/src/processor.rs over `SubxtSource` of
-- crates/subdex-source/src/source.rs and `PgStore` of crates/subdex-store/src/store.rs.
use subdex.Prelude.{ℕ, suc, ◌-◌, ◌≤◌, ◌<◌, u32_max, String, none, List, All, ◌≡◌, arith}
use subdex.Core.Types.{Block}
use subdex.Core.Traits.{Handler}
use subdex.Core.Chain.{IsChain}
use subdex.Exec.Runs.{Runs}
use subdex.Processor.{ProcessorConfig, Processor, World}
use subdex.Processor.Commit.Steps.{IsGood}
use subdex.Processor.Run.{backfill}
use subdex.Processor.Run.Reaches.{Done, backfill_fresh}
use subdex.Source.Config.{SourceConfig}
use subdex.Source.Value.{Value}
use subdex.Source.Subxt.{Buffered, IsBuffered, subxt_source}
use subdex.Source.Subxt.Node.{Node, Held, node_client, IsNode, node_source-Serves}
use subdex.Store.Postgres.{Postgres, pg_store}
use subdex.Store.Postgres.Laws.{Tables, IsPostgres, IsUsed}
use subdex.Store.Postgres.Contract.{pg_view, pg_store-IsStore}
use subdex.Store.Postgres.Available.{IsUp, pg_store-IsAvailable}

module _ (node : Node) (hex_encode : List ℕ → String) (blake2b_512 : List ℕ → List ℕ)
    (to_base58 : List ℕ → String) (clock : ℕ → ℕ) (source_config : SourceConfig)
    (buffered : Buffered (Held node) (Block Value)) (pg : Postgres) (retention : ℕ)
    (handlers : List (Handler (pg_store pg Value retention))) (config : ProcessorConfig) where
  -- The engine over a node and a database.
  abbrev pub rpc_to_postgres : Processor Value
  rpc_to_postgres = record {
    source =
        subxt_source (node_client node hex_encode blake2b_512 to_base58 clock source_config)
          buffered source_config;
    store = pg_store pg Value retention;
    handlers = handlers;
    config = config;
  }

  -- A backfill from a node into a database whose `subdex_block` is empty, from `start_height`, at
  -- most the height after the head: with one round of fuel for each height and one more it returns
  -- the height after the head, and `subdex_block` holds the chain's hash from `start_height` to the
  -- head, but for what the retention prunes, and no row above. The node gives the chain's block at
  -- every height up to a head below the greatest `u32`, and fails, transiently, at most
  -- `max_retries` times in a row for one request; at least one request may be in flight, and values
  -- come in the order of the requests; the statements on `subdex_block` do what SQL says and none
  -- fails, nor does one that creates an index, and only such are registered; and the handlers do not
  -- fail, and leave `subdex_block` alone.
  pub rpc_to_postgres-Done :
      (chain : ℕ → Block Value) (head : ℕ)
      → IsChain chain
      → IsNode node hex_encode blake2b_512 to_base58 clock source_config chain head
      → IsBuffered buffered
      → 0 < source_config.concurrency
      → head < u32_max
      → (t : Tables pg) → IsPostgres pg t
      → IsUsed pg t
      → IsUp pg t
      → All (IsGood (pg_store pg Value retention) (pg_view pg t Value retention)) handlers
      → (fuel : ℕ) (w : World pg.Db (Held node)) → ((n : ℕ) → t.table (t.contents w.db) n ≡ none)
      → config.start_height ≤ suc head
      → suc head - config.start_height < fuel
      → Runs (backfill rpc_to_postgres fuel w) (
          Done rpc_to_postgres
            (pg_view pg t Value retention)
            retention
            chain
            head
            config.start_height)
  rpc_to_postgres-Done chain head c n in_order busy small t L used up good fuel w empty le enough =
      backfill_fresh rpc_to_postgres (pg_view pg t Value retention) retention
        (pg_store-IsStore pg t L used Value retention)
        (pg_store-IsAvailable pg t used up Value retention) good chain c head
        (node_source-Serves node hex_encode blake2b_512 to_base58 clock source_config chain head n
          buffered in_order busy (omega arith))
        small fuel w empty le enough
