-- ===== src/Store/Postgres/Laws.antt =====
-- What `PgStore` relies on of its database: statements see the transaction that they run in, commit
-- together or not at all, and a failed one shows nothing.
use subdex.Prelude.{
  ℕ, ◌<◌, ◌≤◌, u32_max, ◌≡◌, String, Option, none, some, List, All, ltb, leb, ◌==◌, if◌then◌else◌,
}
use subdex.Store.Postgres.{Postgres, SqlResult, Sql, I64}

-- `table` reads the hash in a row of `subdex_block`; `IsIndex` says which statements create an index,
-- and `IsAnswer` which errors are the server's own.
pub record Tables (pg : Postgres) : Type 1 where
  pub Contents : Type 0
  pub contents : pg.Db → Contents
  pub pending : pg.Db → pg.Tx → Contents
  pub table : Contents → ℕ → Option String
  pub IsIndex : String → Type 0
  pub IsAnswer : String → Type 0

module _ (pg : Postgres) (t : Tables pg) where
  -- A query, which changes nothing.
  abbrev pub Reading : {A : Type 0} → Sql pg.Db A → Type 0
  Reading m = (db : pg.Db) → t.contents (m db).1 ≡ t.contents db

  -- What a statement makes of the hash at a height, where it is done.
  abbrev pub Writing : Sql pg.Tx (Unit {0}) → (ℕ → Option String → Option String) → Type 0
  Writing m f =
      (db : pg.Db) (tx : pg.Tx)
      → (m tx).0 ≡ SqlResult.done tt
      → (n : ℕ) → t.table (t.pending db (m tx).1) n ≡ f n (t.table (t.pending db tx) n)

  -- What the queries of `cursor` and `hash_at` read.
  pub record IsRead : Type 0 where
    -- nobody else writes to `subdex_block`
    pub heights_fit : (db : pg.Db) (n : ℕ) → u32_max < n → t.table (t.contents db) n ≡ none
    pub select_cursor_keeps : Reading pg.select_cursor
    pub select_cursor_none :
        (db : pg.Db)
        → (pg.select_cursor db).0 ≡ SqlResult.done none
        → (n : ℕ) → t.table (t.contents db) n ≡ none
    pub select_cursor_some :
        (db : pg.Db) (height : ℕ) (hash : String)
        → (pg.select_cursor db).0 ≡ SqlResult.done (some (height, hash))
        → (t.table (t.contents db) height ≡ some hash)
          × ((n : ℕ) → height < n → t.table (t.contents db) n ≡ none)
    pub select_hash_keeps : (height : ℕ) → Reading (pg.select_hash height)
    pub select_hash_reads :
        (height : ℕ) (db : pg.Db) (o : Option String)
        → (pg.select_hash height db).0 ≡ SqlResult.done o
        → o ≡ t.table (t.contents db) height

  -- What all the statements do.
  pub record IsPostgres : Type 0 where
    pub reads : IsRead
    pub begin_keeps : Reading pg.begin
    pub begin_opens :
        (db : pg.Db) (tx : pg.Tx)
        → (pg.begin db).0 ≡ SqlResult.done tx
        → t.pending (pg.begin db).1 tx ≡ t.contents db
    pub upsert_block_writes :
        (height : ℕ) (hash parent : String) (timestamp : Option I64) (version : ℕ)
        → height ≤ u32_max
        → Writing
            (pg.upsert_block height hash parent timestamp version)
            (λ n o. if n == height then some hash else o)
    pub delete_below_writes :
        (height : ℕ) → Writing (pg.delete_below height) (λ n o. if ltb n height then none else o)
    pub delete_above_writes :
        (height : ℕ) → Writing (pg.delete_above height) (λ n o. if leb n height then o else none)
    pub commit_applies :
        (tx : pg.Tx) (db : pg.Db)
        → (pg.commit tx db).0 ≡ SqlResult.done tt
        → t.contents (pg.commit tx db).1 ≡ t.pending db tx
    -- the server refused to commit
    pub commit_fails :
        (tx : pg.Tx) (db : pg.Db) (e : String)
        → t.IsAnswer e
        → (pg.commit tx db).0 ≡ SqlResult.failed e
        → t.contents (pg.commit tx db).1 ≡ t.contents db
    pub select_deferred_keeps : Reading pg.select_deferred
    pub clear_deferred_keeps : (name : String) → Writing (pg.clear_deferred name) (λ n o. o)
    pub execute_in_keeps : (ddl : String) → t.IsIndex ddl → Writing (pg.execute_in ddl) (λ n o. o)

  -- How the database is used: a commit that fails was refused by the server, so no connection is
  -- lost in between, and what handlers register with `defer_index` are statements that create indexes.
  pub record IsUsed : Type 0 where
    pub commit_answers :
        (tx : pg.Tx) (db : pg.Db) (e : String)
        → (pg.commit tx db).0 ≡ SqlResult.failed e
        → t.IsAnswer e
    pub registers :
        (db : pg.Db) (rows : List (String × String))
        → (pg.select_deferred db).0 ≡ SqlResult.done rows
        → All (λ (_, ddl). t.IsIndex ddl) rows
