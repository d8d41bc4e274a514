-- ===== src/Store/Postgres/Reads.antt =====
-- What `cursor` and `hash_at` of `PgStore` answer.
use mathlib.Core.Option
use mathlib.Core.Option.{some-injective}
use subdex.Prelude.{
  ℕ, ◌%◌, ◌^◌, ◌<◌, u32_max, ◌≡◌, String, Option, none, some, arith, leb, inl, inr, Bool-cases,
}
use subdex.Core.Error.{ok}
use subdex.Core.Types.{BlockId}
use subdex.Exec.Ends.{Ends, Ends-ok, Ends-bind}
use subdex.Store.Postgres.{Postgres, SqlResult, cursor, hash_at}
use subdex.Store.Postgres.Laws.{Tables, IsRead}
use subdex.Store.Postgres.Steps.{Ends-query, Holds}

module _ (pg : Postgres) (t : Tables pg) where
  -- What `cursor` and its row say of the table.
  abbrev pub IsLast : t.Contents → Option BlockId → Type 0
  IsLast C o =
      (o ≡ none → (n : ℕ) → t.table C n ≡ none)
      × ((c : BlockId)
          → o ≡ some c
          → (t.table C c.number ≡ some c.hash) × ((n : ℕ) → c.number < n → t.table C n ≡ none))

  -- What `cursor` ends in.
  abbrev pub Found : t.Contents → Option BlockId → pg.Db → Type 0
  Found C o u = Holds pg t C u × IsLast C o

module _ (pg : Postgres) (t : Tables pg) (L : IsRead pg t) where
  fits :
      (db : pg.Db) (height : ℕ) (hash : String)
      → t.table (t.contents db) height ≡ some hash
      → height % 2 ^ 32 ≡ height
  fits db height hash e = elim (Bool-cases (leb height u32_max)) [
    | inl b ↦ ground arith
    | inr b ↦ let gone = L.heights_fit db height (ground arith) in cc
  ]

  cursor-IsLast :
      (db : pg.Db) (row : Option (ℕ × String))
      → (pg.select_cursor db).0 ≡ SqlResult.done row
      → IsLast pg t
          (t.contents db)
          (Option.map (λ (height, hash). record { number = height % 2 ^ 32; hash = hash }) row)
  cursor-IsLast db none e = (λ _. L.select_cursor_none db e, λ c x. cc)
  cursor-IsLast db (some (height, hash)) e =
      let (at, above) = L.select_cursor_some db height hash e in
      let same = fits db height hash at in
      (λ x. cc, λ c x. rw (← some-injective _ _ x) (rw same (at, above)))

  pub Ends-cursor :
      (db : pg.Db) → Ends (Found pg t (t.contents db)) (Holds pg t (t.contents db)) (cursor pg db)
  unfolding cursor Ends
  Ends-cursor db =
      let C = t.contents db in
      Ends-bind (Holds pg t C) (Found pg t C)
        (λ row u. Holds pg t C u × ((pg.select_cursor db).0 ≡ SqlResult.done row)) _ _
        (Ends-query (Holds pg t C)
          (λ row u. Holds pg t C u × ((pg.select_cursor db).0 ≡ SqlResult.done row)) _
          pg.select_cursor db (λ row e. (L.select_cursor_keeps db, e))
          (λ _ _. L.select_cursor_keeps db))
        λ row u h. (h.0, cursor-IsLast db row h.1)

  pub cursor-Found :
      (db : pg.Db) (o : Option BlockId)
      → (cursor pg db).0 ≡ ok o
      → Found pg t (t.contents db) o (cursor pg db).1
  cursor-Found db o e =
      Ends-ok (Found pg t (t.contents db)) (Holds pg t (t.contents db)) _ o (Ends-cursor db) e

  pub hash_at-reads :
      (h : ℕ) (db : pg.Db) (o : Option String)
      → (hash_at pg h db).0 ≡ ok o
      → o ≡ t.table (t.contents db) h
  unfolding hash_at
  hash_at-reads h db o e =
      let Q : Option String → pg.Db → Type 0 = λ o' _. o' ≡ t.table (t.contents db) h in
      Ends-ok Q (λ _. Unit {0}) _ o
        (Ends-query (λ _. Unit {0}) Q _ (pg.select_hash h) db
          (λ o' q. L.select_hash_reads h db o' q) (λ _ _. tt))
        e
