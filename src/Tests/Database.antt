-- ===== src/Tests/Database.antt =====
-- A database for `PgStore`: the rows of `subdex_block`, and a transaction is a copy of them.
use subdex.Prelude.{◌≡◌, subst, u32_max, String, str_eq, true, [], All, refl, arith}
use subdex.Core.StoreLaws.{IsStore}
use subdex.Store.Map.{
  Map, get, insert, next_back, keep_upto, keep_from, get-insert, get-keep_upto, get-keep_from,
  next_back-none, next_back-some,
}
use subdex.Store.Postgres.{Postgres, SqlResult, pg_store}
use subdex.Store.Postgres.Laws.{Tables, IsRead, IsPostgres, IsUsed}
use subdex.Store.Postgres.Contract.{pg_view, pg_store-IsStore}
use subdex.Store.Postgres.Migrations.{handler_migrations_table, or_handler, sanitize, sanitize_char}
use subdex.Prelude.Chars.{to_ascii_lowercase}
use subdex.Tests.Fixtures.{Nothing}

abbrev pub database : Postgres
database = record {
  Db = Map String;
  Tx = Map String;
  migrate = λ m. (SqlResult.done tt, m);
  select_cursor = λ m. (SqlResult.done (next_back (keep_upto u32_max m)), m);
  select_hash = λ height m. (SqlResult.done (get height (keep_upto u32_max m)), m);
  begin = λ m. (SqlResult.done m, m);
  upsert_block =
      λ height hash parent timestamp version m. (SqlResult.done tt, insert height hash m);
  delete_below = λ height m. (SqlResult.done tt, keep_from height m);
  delete_above = λ height m. (SqlResult.done tt, keep_upto height m);
  commit = λ tx m. (SqlResult.done tt, tx);
  select_deferred = λ m. (SqlResult.done [], m);
  register_deferred = λ name ddl m. (SqlResult.done tt, m);
  clear_deferred = λ name m. (SqlResult.done tt, m);
  execute = λ ddl m. (SqlResult.done tt, m);
  execute_in = λ ddl m. (SqlResult.done tt, m);
}

abbrev pub tables : Tables database
tables = record {
  Contents = Map String;
  contents = λ m. m;
  pending = λ m tx. tx;
  table = λ m n. get n (keep_upto u32_max m);
  IsIndex = λ ddl. str_eq ddl "CREATE INDEX IF NOT EXISTS by_block ON subdex_block (hash)" ≡ true;
  IsAnswer = λ e. Unit;
}

pub database-IsRead : IsRead database tables
database-IsRead = record {
  heights_fit = λ m n past. simp get-keep_upto (ground arith);
  select_cursor_keeps = λ m. refl;
  select_cursor_none = λ m e n. next_back-none (keep_upto u32_max m) (ground arith) n;
  select_cursor_some =
      λ m height hash e. next_back-some (keep_upto u32_max m) height hash (ground arith);
  select_hash_keeps = λ height m. refl;
  select_hash_reads = λ height m o e. ground arith;
}

pub database-IsUsed : IsUsed database tables
database-IsUsed = record {
  commit_answers = λ m tx e q. tt;
  registers = λ m rows e.
      let same : [] ≡ rows = ground arith in subst (All (λ (_, ddl). tables.IsIndex ddl)) same tt;
}

pub database-IsPostgres : IsPostgres database tables
database-IsPostgres = record {
  reads = database-IsRead;
  begin_keeps = λ m. refl;
  begin_opens = λ m tx e. ground arith;
  upsert_block_writes = λ height hash parent timestamp version fit m tx e n.
      simp (get-keep_upto, get-insert) (ground arith);
  delete_below_writes = λ height m tx e n. simp (get-keep_upto, get-keep_from) (ground arith);
  delete_above_writes = λ height m tx e n. simp get-keep_upto (ground arith);
  commit_applies = λ tx m e. refl;
  commit_fails = λ tx m x answer e. cc;
  select_deferred_keeps = λ m. refl;
  clear_deferred_keeps = λ name m tx e n. refl;
  execute_in_keeps = λ ddl index m tx e n. refl;
}

pg_store-IsStore_example :
    IsStore (pg_store database Nothing 2) (pg_view database tables Nothing 2) 2
pg_store-IsStore_example =
    pg_store-IsStore database tables database-IsPostgres database-IsUsed Nothing 2

migrations_table : handler_migrations_table "My-Handler.v2 x" ≡ "_sqlx_migrations_my_handler_v2_x"
unfolding handler_migrations_table or_handler sanitize sanitize_char to_ascii_lowercase
migrations_table = refl
