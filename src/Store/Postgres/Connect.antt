-- ===== src/Store/Postgres/Connect.antt =====
-- How a `PgStore` of crates/subdex-store/src/store.rs is made, and `run_handler_migrations`. The pool of
-- sqlx, connecting it, and a run of its migrator are parameters.
use subdex.Prelude.{ℕ, String, ◌<>◌}
use subdex.Core.Error.{SubdexError, Result, ok, err}
use subdex.Core.Traits.{Store}
use subdex.Exec.{Exec}
use subdex.Store.Config.{StoreConfig}
use subdex.Store.Postgres.{Postgres, SqlResult, Sql, query, pg_store}
use subdex.Store.Postgres.Migrations.{handler_migrations_table}

pub record PgStore (Pool : Type 0) : Type 0 where
  pub pool : Pool
  pub reorg_retention : ℕ

module _ {Pool : Type 0} where
  -- `connect(config)`, with what the pool's options end in.
  unfoldable pub connect : (ℕ → String → SqlResult Pool) → StoreConfig → Result (PgStore Pool)
  connect options config = elim (options config.max_connections config.url) [
    | SqlResult.failed e ↦ err (SubdexError.store ("connect: " <> e))
    | SqlResult.done pool ↦ ok (record { pool = pool; reorg_retention = config.reorg_retention })
  ]

  abbrev pub from_pool : Pool → PgStore Pool
  from_pool pool = record { pool = pool; reorg_retention = 0 }

  abbrev pub with_reorg_retention : ℕ → PgStore Pool → PgStore Pool
  with_reorg_retention blocks s = record s { reorg_retention = blocks }

  -- The store that the engine drives, over the statements on a pool.
  abbrev pub as_store : (Pool → Postgres) → (Value : Type 0) → PgStore Pool → Store Value
  as_store statements Value s = pg_store (statements s.pool) Value s.reorg_retention

-- `run` is the run of the handler's migrator with a table of its own.
unfoldable pub run_handler_migrations :
    {Db : Type 0} → (String → Sql Db (Unit {0})) → String → Exec Db (Unit {0})
run_handler_migrations run name =
    query ("handler migrations `" <> (name <> "`")) (run (handler_migrations_table name))
