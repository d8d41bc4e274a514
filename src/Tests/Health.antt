-- ===== src/Tests/Health.antt =====
-- `/readyz` over the database of `PgStore`'s tests.
use subdex.Prelude.{
  ℕ, String, str_eq, Option, none, some, List, [], ◌∷◌, ◌≡◌, if◌then◌else◌, u32_max,
}
use subdex.Store.Map.{Map, next_back, keep_upto}
use subdex.Store.Postgres.{SqlResult, I64}
use subdex.Server.{Direction, Subselect, StatusPool}
use subdex.Server.Status.{named, IsTop, height_of, hash_of}
use subdex.Tests.Database.{tables}

-- The column of the highest row that a subquery selects.
abbrev height_column : Option Subselect → Option (ℕ × String) → Option I64
height_column (some (Subselect.first column order Direction.descending)) top =
    if str_eq column "height" then height_of top else none
height_column _ top = none

abbrev hash_column : Option Subselect → Option (ℕ × String) → Option String
hash_column (some (Subselect.first column order Direction.descending)) top =
    if str_eq column "hash" then hash_of top else none
hash_column _ top = none

abbrev pool : StatusPool (Map String)
pool = record {
  Row = List (Subselect × String) × Option (ℕ × String);
  select = λ columns m. (SqlResult.done (columns, next_back (keep_upto u32_max m)), m);
  try_get_i64 = λ (columns, top) name. SqlResult.done (height_column (named name columns) top);
  try_get_text = λ (columns, top) name. SqlResult.done (hash_column (named name columns) top);
  try_get_count = λ row name. SqlResult.done (I64.pos 1);
}

-- What `select_reads` asks of a row.
abbrev Selected : List (Subselect × String) → Map String → pool.Row → Type 0
Selected columns m row =
    (top : Option (ℕ × String)) × IsTop (tables.table m) top
    × ((alias : String)
        → named alias columns ≡ some (Subselect.first "height" "height" Direction.descending)
        → pool.try_get_i64 row alias ≡ SqlResult.done (height_of top))
    × ((alias : String)
        → named alias columns ≡ some (Subselect.first "hash" "height" Direction.descending)
        → pool.try_get_text row alias ≡ SqlResult.done (hash_of top))

abbrev two : Map String
two = (7, "0x7") ∷ (8, "0x8") ∷ []
