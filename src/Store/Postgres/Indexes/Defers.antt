-- ===== src/Store/Postgres/Indexes/Defers.antt =====
-- `defer_index` of `PgStore` loses no index, wherever it stops.
use subdex.Exec.Ends.{Ends}
use subdex.Store.Postgres.{Postgres}
