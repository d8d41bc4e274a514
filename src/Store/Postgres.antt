-- ===== src/Store/Postgres.antt =====
-- `PgStore` of crates/subdex-store/src/store.rs. sqlx and the database are a parameter: a record of
-- the statements that the store sends, by what they do.
pub mod Laws
pub mod Migrations
pub mod Connect
pub mod Steps
pub mod Reads
pub mod Contract
pub mod Available
pub mod Indexes
use mathlib.Core.Option
use subdex.Prelude.{
  ℕ, ◌-◌, ◌%◌, ◌^◌, String, ◌<>◌, Bool, Option, none, some, List, [], ◌∷◌, ltb, if◌then◌else◌,
}
use subdex.Core.Error.{SubdexError, Result, ok, err}
use subdex.Core.Types.{BlockId, Block}
use subdex.Core.Traits.{Store}
use subdex.Codegen.Sql.{quote_ident}
use subdex.Exec.{Exec, pure, ◌>>=◌, ◌>>◌}

-- What a statement ends in; an error comes as its `Display` text.
pub data SqlResult (A : Type 0) : Type 0 where
  done : A → SqlResult A
  failed : String → SqlResult A

abbrev pub Sql : Type 0 → Type 0 → Type 0
Sql W A = W → SqlResult A × W

pub data I64 : Type 0 where
  pos negsuc : ℕ → I64

-- `t as i64` of a `u64`.
unfoldable pub as_i64 : ℕ → I64
as_i64 t = if ltb t (2 ^ 63) then I64.pos t else I64.negsuc (2 ^ 64 - 1 - t)

-- Dropping an open `Tx` rolls it back. Heights are `BIGINT`, and only ever written from a `u32`.
pub record Postgres : Type 1 where
  pub Db : Type 0
  pub Tx : Type 0
  -- the framework's migrations
  pub migrate : Sql Db (Unit {0})
  -- `SELECT height, hash FROM subdex_block ORDER BY height DESC LIMIT 1`
  pub select_cursor : Sql Db (Option (ℕ × String))
  -- `SELECT hash FROM subdex_block WHERE height = $1`
  pub select_hash : ℕ → Sql Db (Option String)
  pub begin : Sql Db Tx
  -- `INSERT INTO subdex_block … ON CONFLICT (height) DO UPDATE …`
  pub upsert_block : ℕ → String → String → Option I64 → ℕ → Sql Tx (Unit {0})
  -- `DELETE FROM subdex_block WHERE height < $1`, and `> $1`
  pub delete_below : ℕ → Sql Tx (Unit {0})
  pub delete_above : ℕ → Sql Tx (Unit {0})
  pub commit : Tx → Sql Db (Unit {0})
  -- `SELECT name, ddl FROM subdex_deferred_index ORDER BY name`
  pub select_deferred : Sql Db (List (String × String))
  -- `INSERT INTO subdex_deferred_index … ON CONFLICT (name) DO UPDATE …`
  pub register_deferred : String → String → Sql Tx (Unit {0})
  -- `DELETE FROM subdex_deferred_index WHERE name = $1`
  pub clear_deferred : String → Sql Tx (Unit {0})
  -- a statement by its text, on the pool or in a transaction
  pub execute : String → Sql Db (Unit {0})
  pub execute_in : String → Sql Tx (Unit {0})

unfoldable pub store_err : String → String → SubdexError
store_err context e = SubdexError.store (context <> (": " <> e))

-- `.await.map_err(|e| store_err(context, e))?`
module _ {A : Type 0} where
  unfoldable pub answer : String → SqlResult A → Result A
  unfolding store_err
  answer context (SqlResult.done a) = ok a
  answer context (SqlResult.failed e) = err (store_err context e)

  unfoldable pub query : {W : Type 0} → String → Sql W A → Exec W A
  query context m w = let (r, u) = m w in (answer context r, u)

-- `format!("DROP INDEX IF EXISTS \"{}\"", name.replace('"', "\"\""))`
unfoldable pub drop_ddl : String → String
drop_ddl name = "DROP INDEX IF EXISTS " <> quote_ident name

-- A statement on the open transaction.
unfoldable pub in_tx : {Db Tx : Type 0} → Exec Tx (Unit {0}) → Tx → Exec Db Tx
in_tx m tx db = let (r, t) = m tx in (elim r [ ok _ ↦ ok t | err e ↦ err e ], db)

module _ (pg : Postgres) where
  unfoldable pub cursor : Exec pg.Db (Option BlockId)
  cursor = do
    row ← query "cursor" pg.select_cursor
    pure (Option.map (λ (height, hash). record { number = height % 2 ^ 32; hash = hash }) row)

  unfoldable pub hash_at : ℕ → Exec pg.Db (Option String)
  hash_at height = query "hash_at" (pg.select_hash height)

  module _ (reorg_retention : ℕ) where
    -- The pruning in `set_cursor`.
    unfoldable pub prune : ℕ → Exec pg.Tx (Unit {0})
    prune number =
        if ltb 0 reorg_retention
        then (let below = number - reorg_retention in
            if ltb 0 below then query "prune" (pg.delete_below below) else pure tt)
        else pure tt

    unfoldable pub set_cursor : {Value : Type 0} → Block Value → Exec pg.Tx (Unit {0})
    set_cursor block = do
      query "set_cursor" (
          pg.upsert_block block.id.number block.id.hash block.parent_hash
            (Option.map as_i64 block.timestamp) block.spec_version)
      prune block.id.number

  unfoldable pub rollback_to : ℕ → Exec pg.Db (Unit {0})
  rollback_to height = do
    tx ← query "rollback begin" pg.begin
    tx' ← in_tx (query "rollback delete" (pg.delete_above height)) tx
    query "rollback commit" (pg.commit tx')

  -- One round of the loop of `on_backfill_complete`.
  unfoldable pub recreate : String → String → Exec pg.Db (Unit {0})
  recreate name ddl = do
    tx ← query "recreate index begin" pg.begin
    tx' ← in_tx (query ("recreate index `" <> (name <> "`")) (pg.execute_in ddl)) tx
    tx'' ← in_tx (query ("clear deferred index `" <> (name <> "`")) (pg.clear_deferred name)) tx'
    query ("recreate index `" <> (name <> "` commit")) (pg.commit tx'')

  unfoldable pub recreate_all : List (String × String) → Exec pg.Db (Unit {0})
  recreate_all [] = pure tt
  recreate_all ((name, ddl) ∷ pending) = recreate name ddl >> recreate_all pending

  unfoldable pub on_backfill_complete : Exec pg.Db (Unit {0})
  on_backfill_complete = query "deferred index list" pg.select_deferred >>= recreate_all

  -- The registration and the drop of an index in one transaction.
  unfoldable pub defer : String → String → Exec pg.Db (Unit {0})
  defer name create_ddl = do
    tx ← query "defer index begin" pg.begin
    tx' ←
        in_tx
          (query ("register deferred index `" <> (name <> "`"))
            (pg.register_deferred name create_ddl))
          tx
    tx'' ←
        in_tx (query ("drop deferred index `" <> (name <> "`")) (pg.execute_in (drop_ddl name))) tx'
    query ("defer index `" <> (name <> "` commit")) (pg.commit tx'')

  -- With no cursor the start is fresh.
  unfoldable pub defer_index : String → String → Exec pg.Db (Unit {0})
  defer_index name create_ddl = do
    c ← cursor
    elim c [
      | some id ↦ query ("ensure index `" <> (name <> "`")) (pg.execute create_ddl)
      | none ↦ defer name create_ddl
    ]

  abbrev pub pg_store : (Value : Type 0) → ℕ → Store Value
  pg_store Value reorg_retention = record {
    Db = pg.Db;
    Tx = pg.Tx;
    init = query "migrate" pg.migrate;
    cursor = cursor;
    hash_at = hash_at;
    begin = query "begin" pg.begin;
    set_cursor = set_cursor reorg_retention;
    commit = λ tx. query "commit" (pg.commit tx);
    rollback_to = rollback_to;
    on_backfill_complete = on_backfill_complete;
  }
