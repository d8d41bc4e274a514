-- ===== src/Lib.antt =====
-- subdex: an indexing framework for Substrate chains. An engine (`Processor`) drives blocks from a
-- data source through the user's handlers into a store, so that each batch's writes and the cursor
-- commit together, resumes from the cursor, backfills to the finalized head, follows the tip, and
-- rolls back to the common ancestor when a stored parent hash disagrees with the chain.
--
-- Parts:
-- * `Core` is crates/subdex-core/src: `Types` and `Error` are the data model, `Traits` has the traits
--   as records of operations, `Chain` says what it means that a source serves one chain, and
--   `StoreLaws` is the contract that a store keeps and that the engine assumes.
-- * `Exec` is the model of async methods: an action on a state that ends in a value or an error and
--   keeps what it changed before the error.
-- * `Processor` is crates/subdex/src/processor.rs: `Commit` has commit_block and commit_batch, `Reorg`
--   the check of parents, find_fork_point and the rollback, and `Run` the run loop; the children
--   of each have its theorems.
-- * `Store.Memory` is MemStore of crates/subdex/src/testkit.rs, a store in memory.
-- * `Store.Postgres` is PgStore of crates/subdex-store/src/store.rs over a record of the SQL
--   statements it sends; `Laws` says what they do, `Contract` has its theorem, `Available`
--   says when no call fails, `Indexes` is about the deferred indexes, and
--   `Connect` makes the store.
-- * `Source` is crates/subdex-source/src: `Config` (config.rs), `Retry` (retry.rs, over a clock
--   and with one unit of fuel for each attempt), `Hybrid` (hybrid.rs), `Ss58` (ss58.rs), `Value`
--   (value.rs, over a data type of the shapes of a decoded value), `Subxt` (source.rs over a client,
--   with `Node` for the calls of a node and the stored subscription, and `Decode` and `Parts` for
--   mapping.rs), and `Sqd` (sqd: `Json`, `Mapping` and `Signer` are mapping.rs, `Text`, `Client` and
--   `Lines` client.rs, and `Sqd` itself mod.rs over HTTP, a JSON parser and a hex decoder).
-- * `Settings` is crates/subdex-config/src/lib.rs over a file system, a TOML parser and an
--   environment, and `Store.Config` crates/subdex-store/src/config.rs.
-- * `Processor.Metrics` is PrometheusObserver of crates/subdex/src/metrics.rs, fed with what the
--   engine reports, and `Processor.Config` the builders of crates/subdex/src/config.rs.
-- * `Codegen` is crates/subdex-codegen/src: `Model` and `Names` (model.rs), `Parse` (parse.rs,
--   over the syntax tree that the GraphQL parser gives), `Sql` (gen_sql.rs), `Upsert`
--   (gen_upsert.rs), `Rust` (gen_rust.rs), `Graphql` (gen_graphql.rs, with a table of what sqlx
--   decodes), `Scaffold` (scaffold.rs), `Files` (lib.rs), and `Cli` (main.rs), the last two over
--   a file system.
-- * `Server` is crates/subdex-graphql/src: the configuration, the routes, the status query and the
--   health checks, over a pool.
-- * `Testkit` is the rest of crates/subdex/src/testkit.rs: the recording handler, the scripted source
--   and the test chains.
-- * `Deployed` puts the engine over `Subxt` and `Store.Postgres`.
-- * `Tests` has fixtures, and the theorems applied to them.
--
-- Numbers are natural numbers; `u32` arithmetic that saturates is written out, and the theorems on
-- heights assume that the head is below the greatest `u32`. The run loop has fuel, one unit for each
-- round of its `while`, and its theorems say how much they need. An observer is the list of what it is
-- told. Durations, logging and the scheduling of concurrent `prepare` calls, which are pure, are not
-- modelled. The futures crate's `buffered` is a parameter: the state of the node after a call is the
-- node as the same request finds it next, after whatever other requests in flight did to it, and how
-- those interleave is not modelled beyond that. A shutdown signal is a list of its outcomes at the
-- waits for the tip.
--
-- Not modelled: what axum and async-graphql make of the server's routes and schema, the Prometheus
-- exporter, which is I/O over a library, the process's own environment and `.env` file, and connecting
-- to a database or a node.
pub mod Prelude
pub mod Core
pub mod Exec
pub mod Processor
pub mod Store
pub mod Testkit
pub mod Server
pub mod Source
pub mod Codegen
pub mod Settings
pub mod Deployed
pub mod Tests
