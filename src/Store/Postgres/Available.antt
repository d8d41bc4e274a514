-- ===== src/Store/Postgres/Available.antt =====
-- `PgStore` (crates/subdex-store/src/store.rs) over a database that is up: no statement fails, and so
-- no call of the store does.
use subdex.Prelude.{
  ℕ, ◌-◌, ◌≡◌, refl, ap, String, Option, List, [], ◌∷◌, All, ltb, Bool-cases, inl, inr,
}
use subdex.Core.Error.{ok}
use subdex.Core.StoreLaws.{IsAvailable}
use subdex.Exec.{Exec}
use subdex.Exec.Runs.{Runs, Runs-pure, Runs-halves, Runs-bind}
use subdex.Store.Postgres.Laws.{Tables, IsUsed}
use subdex.Store.Postgres.{
  Postgres, SqlResult, Sql, I64, answer, query, in_tx, cursor, hash_at, prune, set_cursor,
  rollback_to, recreate, recreate_all, on_backfill_complete, pg_store,
}

-- The statement is done, from any state.
abbrev pub Does : {W A : Type 0} → Sql W A → Type 0
Does {W} {A} m = (w : W) → (a : A) × ((m w).0 ≡ SqlResult.done a)

-- No statement fails, of those that create an index where it comes by its text.
pub record IsUp (pg : Postgres) (t : Tables pg) : Type 0 where
  pub cursor_done : Does pg.select_cursor
  pub hash_done : (height : ℕ) → Does (pg.select_hash height)
  pub begin_done : Does pg.begin
  pub upsert_done :
      (height : ℕ) (hash parent : String) (timestamp : Option I64) (version : ℕ)
      → Does (pg.upsert_block height hash parent timestamp version)
  pub below_done : (height : ℕ) → Does (pg.delete_below height)
  pub above_done : (height : ℕ) → Does (pg.delete_above height)
  pub commit_done : (tx : pg.Tx) → Does (pg.commit tx)
  pub deferred_done : Does pg.select_deferred
  pub clear_done : (name : String) → Does (pg.clear_deferred name)
  pub ddl_done : (ddl : String) → t.IsIndex ddl → Does (pg.execute_in ddl)

-- It ends with some value.
abbrev Works : {W A : Type 0} → Exec W A → Type 0
Works {W} {A} m = (w : W) → Runs (m w) (λ _ _. Unit {0})

module _ {W A : Type 0} where
  Works-query : (context : String) (m : Sql W A) → Does m → Works (query context m)
  unfolding query answer
  Works-query context m does w =
      let (a, e) = does w in Runs-halves (query context m w) {a = a} (ap (answer context) e) tt

  answers : {m : Exec W A} → Works m → (w : W) → (a : A) × ((m w).0 ≡ ok a)
  answers works w = ((works w).value, ap (λ x. x.0) (works w).eq)

Works-in_tx :
    {Db Tx : Type 0} (m : Exec Tx (Unit {0})) → Works m → (tx : Tx) → Works (in_tx {Db = Db} m tx)
unfolding in_tx
Works-in_tx m works tx db =
    let r = works tx in Runs-halves (in_tx m tx db) {a = (m tx).1} (rw (ap (λ x. x.0) r.eq) refl) tt

module _ (pg : Postgres) (t : Tables pg) (used : IsUsed pg t) (up : IsUp pg t) where
  Works-cursor : Works (cursor pg)
  unfolding cursor
  Works-cursor db =
      Runs-bind _ _ (Works-query _ pg.select_cursor up.cursor_done db) λ row u _. Runs-pure _ u tt

  Works-prune : (retention number : ℕ) → Works (prune pg retention number)
  unfolding prune
  Works-prune retention number tx = elim (Bool-cases (ltb 0 retention)) [
    | inr b ↦ rw b (Runs-pure tt tx tt)
    | inl b ↦ rw b (elim (Bool-cases (ltb 0 (number - retention))) [
      | inr c ↦ rw c (Runs-pure tt tx tt)
      | inl c ↦ rw c (Works-query _ _ (up.below_done (number - retention)) tx)
    ])
  ]

  Works-rollback_to : (height : ℕ) → Works (rollback_to pg height)
  unfolding rollback_to
  Works-rollback_to height db = Runs-bind _ _ (Works-query _ pg.begin up.begin_done db) λ tx u _.
      Runs-bind _ _ (Works-in_tx _ (Works-query _ _ (up.above_done height)) tx u)
        λ tx' u' _. Works-query _ _ (up.commit_done tx') u'

  Works-recreate : (name ddl : String) → t.IsIndex ddl → Works (recreate pg name ddl)
  unfolding recreate
  Works-recreate name ddl index db =
      Runs-bind _ _ (Works-query _ pg.begin up.begin_done db) λ tx u _.
        Runs-bind _ _ (Works-in_tx _ (Works-query _ _ (up.ddl_done ddl index)) tx u) λ tx' u' _.
          Runs-bind _ _ (Works-in_tx _ (Works-query _ _ (up.clear_done name)) tx' u')
            λ tx'' u'' _. Works-query _ _ (up.commit_done tx'') u''

  Works-recreate_all :
      (pending : List (String × String))
      → All (λ (_, ddl). t.IsIndex ddl) pending
      → Works (recreate_all pg pending)
  unfolding recreate_all
  Works-recreate_all [] is db = Runs-pure tt db tt
  Works-recreate_all ((name, ddl) ∷ pending) (i, is) db =
      Runs-bind _ _ (Works-recreate name ddl i db) λ _ u _. Works-recreate_all pending is u

  Works-on_backfill_complete : Works (on_backfill_complete pg)
  unfolding on_backfill_complete query answer
  Works-on_backfill_complete db =
      let (rows, e) = up.deferred_done db in
      Runs-bind _ _
        (Runs-halves {Q = λ pending _. All (λ (_, ddl). t.IsIndex ddl) pending}
          (query "deferred index list" pg.select_deferred db) {a = rows}
          (ap (answer "deferred index list") e) (used.registers db rows e))
        λ pending u is. Works-recreate_all pending is u

  -- Over a database that is up, no call of `PgStore` fails.
  pub pg_store-IsAvailable :
      (Value : Type 0) (retention : ℕ) → IsAvailable (pg_store pg Value retention)
  unfolding hash_at set_cursor
  pg_store-IsAvailable Value retention = record {
    cursor_answers = answers Works-cursor;
    hash_at_answers = λ h. answers (Works-query _ _ (up.hash_done h));
    begin_answers = answers (Works-query _ pg.begin up.begin_done);
    set_cursor_answers = λ b tx.
        (answers
          (λ w.
            Runs-bind _ _ (Works-query _ _ (up.upsert_done _ _ _ _ _) w)
              λ _ u _. Works-prune retention b.id.number u)
          tx).1;
    commit_answers = λ tx db. (answers (Works-query _ _ (up.commit_done tx)) db).1;
    rollback_answers = λ h db. (answers (Works-rollback_to h) db).1;
    backfilled_answers = λ db. (answers Works-on_backfill_complete db).1;
  }
