-- ===== src/Store/Postgres/Steps.antt =====
-- What the calls of `PgStore` that open a transaction make of the rows, however they end.
use subdex.Prelude.{ℕ, ◌≡◌, refl, ap, ◌∙◌, String, Option, none, leb, if◌then◌else◌}
use subdex.Core.Error.{ok, err}
use subdex.Core.StoreLaws.{truncate}
use subdex.Exec.Ends.{Ends, Ends-bind}
use subdex.Store.Postgres.{Postgres, SqlResult, Sql, query, answer, in_tx, rollback_to}
use subdex.Store.Postgres.Laws.{Tables, IsPostgres, IsUsed, Writing}

module _ {W A : Type 0} (F : W → Type 0) (Q : A → W → Type 0) where
  Ends-answer :
      (context : String) (r : SqlResult A) (u : W)
      → ((a : A) → r ≡ SqlResult.done a → Q a u)
      → ((e : String) → r ≡ SqlResult.failed e → F u)
      → Ends Q F (answer context r, u)
  unfolding Ends answer
  Ends-answer context (SqlResult.done a) u q f = q a refl
  Ends-answer context (SqlResult.failed e) u q f = f e refl

  pub Ends-query :
      (context : String) (m : Sql W A) (w : W)
      → ((a : A) → (m w).0 ≡ SqlResult.done a → Q a (m w).1)
      → ((e : String) → (m w).0 ≡ SqlResult.failed e → F (m w).1)
      → Ends Q F (query context m w)
  unfolding query
  Ends-query context m w q f = Ends-answer context (m w).0 (m w).1 q f

module _ {Db Tx : Type 0} (F : Db → Type 0) (Q : Tx → Db → Type 0) where
  pub Ends-settled :
      (context : String) (r : SqlResult (Unit {0})) (tx : Tx) (db : Db)
      → (r ≡ SqlResult.done tt → Q tx db)
      → F db
      → Ends Q F (elim (answer context r) [ ok _ ↦ ok tx | err e ↦ err e ], db)
  unfolding Ends answer
  Ends-settled context (SqlResult.done a) tx db q f = q refl
  Ends-settled context (SqlResult.failed e) tx db q f = f

module _ (pg : Postgres) (t : Tables pg) where
  abbrev pub Holds : t.Contents → pg.Db → Type 0
  Holds C u = t.contents u ≡ C

  -- What an open transaction has made of the rows of `C`.
  abbrev pub Shows : t.Contents → (ℕ → Option String → Option String) → pg.Tx → pg.Db → Type 0
  Shows C f tx u = (t.contents u ≡ C) × ((n : ℕ) → t.table (t.pending u tx) n ≡ f n (t.table C n))

module _ (pg : Postgres) (t : Tables pg) (L : IsPostgres pg t) (used : IsUsed pg t) where
  pub Ends-begin :
      (context : String) (db : pg.Db)
      → Ends
          (Shows pg t (t.contents db) (λ n o. o))
          (Holds pg t (t.contents db))
          (query context pg.begin db)
  Ends-begin context db =
      Ends-query (Holds pg t (t.contents db)) (Shows pg t (t.contents db) (λ n o. o)) context
        pg.begin db (λ tx e. (L.begin_keeps db, λ n. ap (λ c. t.table c n) (L.begin_opens db tx e)))
        (λ e h. L.begin_keeps db)

  pub Ends-write :
      (C : t.Contents) (f g : ℕ → Option String → Option String) (context : String)
      (m : Sql pg.Tx (Unit {0})) (tx : pg.Tx) (db : pg.Db)
      → Writing pg t m f
      → Shows pg t C g tx db
      → Ends (Shows pg t C (λ n o. f n (g n o))) (Holds pg t C) (in_tx (query context m) tx db)
  unfolding in_tx query
  Ends-write C f g context m tx db w shown =
      Ends-settled (Holds pg t C) (Shows pg t C (λ n o. f n (g n o))) context (m tx).0 (m tx).1 db
        (λ e. (shown.0, λ n. w db tx e n ∙ ap (f n) (shown.1 n))) (shown.0)

  -- The rows of a call that commits are those that its transaction showed.
  pub Ends-commit :
      (C : t.Contents) (f : ℕ → Option String → Option String) (context : String) (tx : pg.Tx)
      (db : pg.Db)
      → Shows pg t C f tx db
      → Ends
          (λ _ u. (n : ℕ) → t.table (t.contents u) n ≡ f n (t.table C n))
          (Holds pg t C)
          (query context (pg.commit tx) db)
  Ends-commit C f context tx db shown =
      Ends-query (Holds pg t C) (λ _ u. (n : ℕ) → t.table (t.contents u) n ≡ f n (t.table C n))
        context (pg.commit tx) db
        (λ _ e n. ap (λ c. t.table c n) (L.commit_applies tx db e) ∙ shown.1 n)
        (λ x e. L.commit_fails tx db x (used.commit_answers tx db x e) e ∙ shown.0)

  pub Ends-rollback_to :
      (h : ℕ) (db : pg.Db)
      → Ends
          (λ _ u. (n : ℕ) → t.table (t.contents u) n ≡ truncate h (t.table (t.contents db)) n)
          (Holds pg t (t.contents db))
          (rollback_to pg h db)
  unfolding rollback_to
  Ends-rollback_to h db =
      let C = t.contents db in
      let Q : Unit {0} → pg.Db → Type 0 =
        λ _ u. (n : ℕ) → t.table (t.contents u) n ≡ truncate h (t.table C) n in
      Ends-bind (Holds pg t C) Q (Shows pg t C (λ n o. o)) _ _ (Ends-begin "rollback begin" db)
        λ tx u s.
          Ends-bind (Holds pg t C) Q (Shows pg t C (λ n o. if leb n h then o else none)) _ _
            (Ends-write C (λ n o. if leb n h then o else none) (λ n o. o) "rollback delete"
              (pg.delete_above h) tx u (L.delete_above_writes h) s)
            λ tx' u' s'.
              Ends-commit C (λ n o. if leb n h then o else none) "rollback commit" tx' u' s'
