-- ===== src/Server/Status.antt =====
-- The status of crates/subdex-graphql/src/status.rs against the cursor of `PgStore`.
use mathlib.Core.Option
use subdex.Prelude.{ℕ, ◌<◌, ◌≡◌, String, str_eq, Option, none, some, List, [], ◌∷◌, if◌then◌else◌}
use subdex.Store.Postgres.{Postgres, SqlResult, I64}
use subdex.Store.Postgres.Laws.{Tables}
use subdex.Server.{IndexerStatus, Direction, Subselect, StatusPool, Response, ready, unavailable}

-- The hash in the highest row, with its height.
abbrev pub IsTop : (ℕ → Option String) → Option (ℕ × String) → Type 0
IsTop rows none = (n : ℕ) → rows n ≡ none
IsTop rows (some (height, hash)) =
    (rows height ≡ some hash) × ((n : ℕ) → height < n → rows n ≡ none)

abbrev pub height_of : Option (ℕ × String) → Option I64
height_of = Option.map (λ (height, _). I64.pos height)

abbrev pub hash_of : Option (ℕ × String) → Option String
hash_of = Option.map (λ (_, hash). hash)

-- The subquery behind a name.
abbrev pub named : String → List (Subselect × String) → Option Subselect
named alias [] = none
named alias ((s, name) ∷ columns) = if str_eq alias name then some s else named alias columns

-- What SQL says of the height and of the hash in the first row of `subdex_block`, highest first, in
-- any statement that selects them, under whatever name.
pub record IsStatus (pg : Postgres) (t : Tables pg) (pool : StatusPool pg.Db) : Type 0 where
  pub select_reads :
      (columns : List (Subselect × String)) (db : pg.Db) (row : pool.Row)
      → (pool.select columns db).0 ≡ SqlResult.done row
      → (top : Option (ℕ × String)) × IsTop (t.table (t.contents db)) top
        × ((alias : String)
            → named alias columns ≡ some (Subselect.first "height" "height" Direction.descending)
            → pool.try_get_i64 row alias ≡ SqlResult.done (height_of top))
        × ((alias : String)
            → named alias columns ≡ some (Subselect.first "hash" "height" Direction.descending)
            → pool.try_get_text row alias ≡ SqlResult.done (hash_of top))

module _ (top : Option (ℕ × String)) where
  -- What is loaded agrees with the highest row.
  abbrev Agrees : SqlResult IndexerStatus → Type 0
  Agrees (SqlResult.done s) = (s.height ≡ height_of top) × (s.hash ≡ hash_of top)
  Agrees (SqlResult.failed e) = Unit

  -- The answer is 200 with the height of the highest row and the count, or 503 with the error.
  abbrev pub Reports : SqlResult IndexerStatus → Response → Type 0
  Reports (SqlResult.done s) r =
      (s.hash ≡ hash_of top)
      × (r ≡ record { status = 200; body = ready (height_of top) s.indexed_blocks })
  Reports (SqlResult.failed e) r = r ≡ record { status = 503; body = unavailable e }
