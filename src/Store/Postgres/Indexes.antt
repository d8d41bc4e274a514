-- ===== src/Store/Postgres/Indexes.antt =====
-- The deferred indexes of `PgStore` (crates/subdex-store/src/store.rs): what `defer_index` and
-- `on_backfill_complete` rely on, and what it means that no index is lost.
pub mod Changes
pub mod Recreates
pub mod Defers
use subdex.Prelude.{
  ◌≡◌, refl, ◌∙◌, sym, ap, subst, ◌⊎◌, inl, inr, String, ◌<>◌, str_eq, Bool, true, false, Option,
  none, some, List, [], ◌∷◌, All, if◌then◌else◌, arith, eq_iff, Bool-cases, Option-cases,
}
use subdex.Core.Types.{BlockId}
use subdex.Codegen.Sql.{read_ident}
use subdex.Exec.{Exec}
use subdex.Exec.Ends.{Ends, Ends-bind, Ends-map}
use subdex.Store.Postgres.{
  Postgres, SqlResult, Sql, query, in_tx, cursor, recreate, recreate_all, on_backfill_complete,
  defer, defer_index,
}
use subdex.Store.Postgres.Steps.{Ends-query, Ends-settled}

-- The statement registered for a name, of the rows of `subdex_deferred_index`.
abbrev pub find : String → List (String × String) → Option String
find n [] = none
find n ((name, ddl) ∷ rows) = if str_eq n name then some ddl else find n rows

-- `deferred` reads the registry, `present` says which indexes are there, and `Creates` which index a
-- statement creates; `Fits` says that a name is not cut by the length limit on identifiers.
pub record Catalog (pg : Postgres) : Type 1 where
  pub Contents : Type 0
  pub contents : pg.Db → Contents
  pub pending : pg.Db → pg.Tx → Contents
  pub deferred : Contents → String → Option String
  pub present : Contents → String → Bool
  pub Creates : String → String → Type 0
  pub Fits : String → Type 0

module _ (pg : Postgres) (t : Catalog pg) where
  -- What holds between the contents before a statement and those after it, where it is done.
  abbrev pub Changing : Sql pg.Tx (Unit {0}) → (t.Contents → t.Contents → Type 0) → Type 0
  Changing m R =
      (db : pg.Db) (tx : pg.Tx)
      → (m tx).0 ≡ SqlResult.done tt
      → R (t.pending db tx) (t.pending db (m tx).1)

  -- `CREATE INDEX IF NOT EXISTS`: the index is there, no other is lost, and the registry stays.
  pub record Created (name : String) (C D : t.Contents) : Type 0 where
    pub there : t.present D name ≡ true
    pub stays : (n : String) → t.present C n ≡ true → t.present D n ≡ true
    pub registry : (n : String) → t.deferred D n ≡ t.deferred C n

  -- The registry has this for the name, and the indexes stay.
  abbrev pub Registers : String → Option String → t.Contents → t.Contents → Type 0
  Registers name o C D =
      ((n : String) → t.deferred D n ≡ (if str_eq n name then o else t.deferred C n))
      × ((n : String) → t.present D n ≡ t.present C n)

  -- The index is not there, others are as before, and the registry stays.
  abbrev pub Drops : String → t.Contents → t.Contents → Type 0
  Drops name C D =
      ((n : String) → t.present D n ≡ (if str_eq n name then false else t.present C n))
      × ((n : String) → t.deferred D n ≡ t.deferred C n)

  pub record IsCatalog : Type 0 where
    pub select_cursor_keeps : (db : pg.Db) → t.contents (pg.select_cursor db).1 ≡ t.contents db
    pub begin_keeps : (db : pg.Db) → t.contents (pg.begin db).1 ≡ t.contents db
    pub begin_opens :
        (db : pg.Db) (tx : pg.Tx)
        → (pg.begin db).0 ≡ SqlResult.done tx
        → t.pending (pg.begin db).1 tx ≡ t.contents db
    pub commit_applies :
        (tx : pg.Tx) (db : pg.Db)
        → (pg.commit tx db).0 ≡ SqlResult.done tt
        → t.contents (pg.commit tx db).1 ≡ t.pending db tx
    -- a commit whose answer is lost may be done
    pub commit_fails :
        (tx : pg.Tx) (db : pg.Db) (e : String)
        → (pg.commit tx db).0 ≡ SqlResult.failed e
        → (t.contents (pg.commit tx db).1 ≡ t.contents db)
          ⊎ (t.contents (pg.commit tx db).1 ≡ t.pending db tx)
    pub select_deferred_keeps : (db : pg.Db) → t.contents (pg.select_deferred db).1 ≡ t.contents db
    -- the name is the primary key
    pub select_deferred_reads :
        (db : pg.Db) (rows : List (String × String))
        → (pg.select_deferred db).0 ≡ SqlResult.done rows
        → ((n : String) → t.deferred (t.contents db) n ≡ find n rows)
          × All (λ (n, ddl). t.deferred (t.contents db) n ≡ some ddl) rows
    pub register_writes :
        (name ddl : String) → Changing (pg.register_deferred name ddl) (Registers name (some ddl))
    pub clear_writes : (name : String) → Changing (pg.clear_deferred name) (Registers name none)
    pub drop_writes :
        (ident name : String)
        → read_ident ident ≡ some name
        → t.Fits name
        → Changing (pg.execute_in ("DROP INDEX IF EXISTS " <> ident)) (Drops name)
    -- `CREATE INDEX IF NOT EXISTS`, in a transaction and on the pool
    pub execute_in_creates :
        (ddl name : String) → t.Creates ddl name → Changing (pg.execute_in ddl) (Created name)
    pub execute_creates :
        (ddl name : String) (db : pg.Db)
        → t.Creates ddl name
        → (pg.execute ddl db).0 ≡ SqlResult.done tt
        → Created name (t.contents db) (t.contents (pg.execute ddl db).1)
    pub execute_fails :
        (ddl name : String) (db : pg.Db) (e : String)
        → t.Creates ddl name
        → (pg.execute ddl db).0 ≡ SqlResult.failed e
        → (t.contents (pg.execute ddl db).1 ≡ t.contents db)
          ⊎ Created name (t.contents db) (t.contents (pg.execute ddl db).1)

  -- An index that is there, or is to be recreated.
  abbrev pub IsKept : t.Contents → String → Type 0
  IsKept C n = (t.present C n ≡ true) ⊎ ((ddl : String) × (t.deferred C n ≡ some ddl))

  -- Each registered statement creates the index that it is registered for.
  abbrev pub IsRegistry : t.Contents → Type 0
  IsRegistry C = (n ddl : String) → t.deferred C n ≡ some ddl → t.Creates ddl n

  -- No index is lost between two contents.
  pub record Keeps (C D : t.Contents) : Type 0 where
    pub registry : IsRegistry D
    pub kept : (n : String) → IsKept C n → IsKept D n

  -- The contents are `C`.
  abbrev pub At : t.Contents → pg.Db → Type 0
  At C u = t.contents u ≡ C

  -- The contents are `C`, or have `P` where an answer was lost.
  abbrev pub Left : t.Contents → (t.Contents → Type 0) → pg.Db → Type 0
  Left C P u = (t.contents u ≡ C) ⊎ P (t.contents u)

  -- A transaction is open over `C`, and what it would commit has `P`.
  abbrev pub Open : t.Contents → (t.Contents → Type 0) → pg.Tx → pg.Db → Type 0
  Open C P tx u = (t.contents u ≡ C) × P (t.pending u tx)

module _ (pg : Postgres) (t : Catalog pg) (L : IsCatalog pg t) where
  pub Ends-began :
      (K : t.Contents → Type 0) (context : String) (db : pg.Db)
      → Ends
          (Open pg t (t.contents db) (λ D. D ≡ t.contents db))
          (Left pg t (t.contents db) K)
          (query context pg.begin db)
  Ends-began K context db =
      Ends-query (Left pg t (t.contents db) K) (Open pg t (t.contents db) (λ D. D ≡ t.contents db))
        context pg.begin db (λ tx e. (L.begin_keeps db, L.begin_opens db tx e))
        (λ e h. inl (L.begin_keeps db))

  pub Ends-change :
      (C : t.Contents) (P Q K : t.Contents → Type 0) (R : t.Contents → t.Contents → Type 0)
      (context : String) (m : Sql pg.Tx (Unit {0})) (tx : pg.Tx) (db : pg.Db)
      → Changing pg t m R
      → ((D E : t.Contents) → P D → R D E → Q E)
      → Open pg t C P tx db
      → Ends (Open pg t C Q) (Left pg t C K) (in_tx (query context m) tx db)
  unfolding in_tx query
  Ends-change C P Q K R context m tx db changing step o =
      Ends-settled (Left pg t C K) (Open pg t C Q) context (m tx).0 (m tx).1 db
        (λ e. (o.0, step _ _ o.1 (changing db tx e))) (inl o.0)

  pub Ends-close :
      (C : t.Contents) (P : t.Contents → Type 0) (context : String) (tx : pg.Tx) (db : pg.Db)
      → Open pg t C P tx db
      → Ends (λ _ u. P (t.contents u)) (Left pg t C P) (query context (pg.commit tx) db)
  Ends-close C P context tx db o =
      Ends-query (Left pg t C P) (λ _ u. P (t.contents u)) context (pg.commit tx) db
        (λ _ e. subst P (sym (L.commit_applies tx db e)) o.1)
        (λ x e. elim (L.commit_fails tx db x e) [
          | inl same ↦ inl (same ∙ o.0)
          | inr written ↦ inr (subst P (sym written) o.1)
        ])
