-- ===== src/Store/Postgres/Contract.antt =====
-- The calls of `PgStore` (crates/subdex-store/src/store.rs) against the contract of `Store`.
use subdex.Prelude.{
  ℕ, ◌-◌, ◌≤◌, u32_max, ◌≡◌, refl, ap, ◌∙◌, String, Option, none, some, List, [], ◌∷◌, All, arith,
  ltb, ◌==◌, if◌then◌else◌, inl, inr, Bool-cases,
}
use subdex.Core.Types.{BlockId, Block}
use subdex.Core.StoreLaws.{View, IsStore, truncate, advance, prune_below}
use subdex.Exec.Ends.{Ends, Ends-ok, Ends-err, Ends-bind, Ends-map, Ends-state}
use subdex.Store.Postgres.{
  Postgres, query, hash_at, prune, set_cursor, recreate, recreate_all, on_backfill_complete,
  pg_store,
}
use subdex.Store.Postgres.Laws.{Tables, IsPostgres, IsUsed}
use subdex.Store.Postgres.Steps.{
  Ends-query, Holds, Shows, Ends-begin, Ends-write, Ends-commit, Ends-rollback_to,
}
use subdex.Store.Postgres.Reads.{Found, cursor-Found, Ends-cursor, hash_at-reads}

abbrev pub pg_view :
    (pg : Postgres) → Tables pg → (Value : Type 0) (r : ℕ) → View (pg_store pg Value r)
pg_view pg t Value r = record {
  Contents = t.Contents;
  contents = t.contents;
  pending = t.pending;
  row = t.table;
}

module _ (pg : Postgres) (t : Tables pg) (L : IsPostgres pg t) (used : IsUsed pg t) where
  -- The rows are still those of `C`.
  abbrev Same : t.Contents → pg.Db → Type 0
  Same C u = (n : ℕ) → t.table (t.contents u) n ≡ t.table C n

  Ends-recreate :
      (name ddl : String) (db : pg.Db)
      → t.IsIndex ddl
      → Ends (λ _ u. Same (t.contents db) u) (Holds pg t (t.contents db)) (recreate pg name ddl db)
  unfolding recreate
  Ends-recreate name ddl db index =
      let C = t.contents db in
      let F : pg.Db → Type 0 = Holds pg t C in
      let Q : Unit {0} → pg.Db → Type 0 = λ _ u. Same C u in
      let R : pg.Tx → pg.Db → Type 0 = Shows pg t C (λ n o. o) in
      Ends-bind F Q R _ _ (Ends-begin pg t L used _ db) λ tx u s.
        Ends-bind F Q R _ _
          (Ends-write pg t L used C (λ n o. o) (λ n o. o) _ (pg.execute_in ddl) tx u
            (L.execute_in_keeps ddl index) s)
          λ tx' u' s'.
            Ends-bind F Q R _ _
              (Ends-write pg t L used C (λ n o. o) (λ n o. o) _ (pg.clear_deferred name) tx' u'
                (L.clear_deferred_keeps name) s')
              λ tx'' u'' s''. Ends-commit pg t L used C (λ n o. o) _ tx'' u'' s''

  Ends-recreate_all :
      (C : t.Contents) (pending : List (String × String)) (db : pg.Db)
      → All (λ (_, ddl). t.IsIndex ddl) pending
      → Same C db
      → Ends (λ _ u. Same C u) (Same C) (recreate_all pg pending db)
  unfolding recreate_all Ends
  Ends-recreate_all C [] db is h = h
  Ends-recreate_all C ((name, ddl) ∷ pending) db (i, is) h =
      Ends-bind (Same C) (λ _ u. Same C u) (λ _ u. Same C u) _ _
        (Ends-map (Holds pg t (t.contents db)) (Same C) (λ _ u. Same (t.contents db) u)
          (λ _ u. Same C u) _ (Ends-recreate name ddl db i) (λ _ u s n. s n ∙ h n)
          (λ u e n. ap (λ c. t.table c n) e ∙ h n))
        λ _ u s. Ends-recreate_all C pending u is s

  on_backfill_complete-keeps : (db : pg.Db) → Same (t.contents db) (on_backfill_complete pg db).1
  unfolding on_backfill_complete
  on_backfill_complete-keeps db =
      let C = t.contents db in
      let R : List (String × String) → pg.Db → Type 0 =
        λ rows u. All (λ (_, ddl). t.IsIndex ddl) rows × Same C u in
      Ends-state (Same C) _ (
        Ends-bind (Same C) (λ _ u. Same C u) R _ _
          (Ends-query (Same C) R _ pg.select_deferred db
            (λ rows e.
              (used.registers db rows e, λ n. ap (λ c. t.table c n) (L.select_deferred_keeps db)))
            (λ _ _ n. ap (λ c. t.table c n) (L.select_deferred_keeps db)))
          λ pending u s. Ends-recreate_all C pending u s.0 s.1)

module _ (pg : Postgres) (t : Tables pg) (L : IsPostgres pg t) (retention : ℕ) where
  -- The rows pending after a statement of `set_cursor`.
  abbrev Wrote : pg.Tx → (ℕ → Option String → Option String) → pg.Tx → Type 0
  Wrote tx f tx' =
      (db : pg.Db) (n : ℕ) → t.table (t.pending db tx') n ≡ f n (t.table (t.pending db tx) n)

  abbrev Advanced : BlockId → pg.Tx → pg.Tx → Type 0
  Advanced id tx tx' =
      (db : pg.Db) (n : ℕ)
      → t.table (t.pending db tx') n ≡ advance retention id (t.table (t.pending db tx)) n

  Ends-prune :
      (number : ℕ) (tx : pg.Tx)
      → Ends
          (λ _. Wrote tx (λ n o. if ltb n (prune_below retention number) then none else o))
          (λ _. Unit {0})
          (prune pg retention number tx)
  unfolding prune Ends
  Ends-prune number tx = elim (Bool-cases (ltb 0 retention)) [
    | inr b ↦ rw b (λ db n. ground arith)
    | inl b ↦ rw b (elim (Bool-cases (ltb 0 (number - retention))) [
      | inr c ↦ rw c (λ db n. ground arith)
      | inl c ↦ rw c (
          Ends-query (λ _. Unit {0})
            (λ _. Wrote tx (λ n o. if ltb n (prune_below retention number) then none else o)) _ _ tx
            (λ _ e db n. L.delete_below_writes _ db tx e n ∙ ground arith) (λ _ _. tt))
    ])
  ]

  Ends-set_cursor :
      {Value : Type 0} (b : Block Value) (tx : pg.Tx)
      → b.id.number ≤ u32_max
      → Ends (λ _. Advanced b.id tx) (λ _. Unit {0}) (set_cursor pg retention b tx)
  unfolding set_cursor
  Ends-set_cursor b tx fit =
      let Q : Unit {0} → pg.Tx → Type 0 = λ _. Advanced b.id tx in
      let R : Unit {0} → pg.Tx → Type 0 =
        λ _. Wrote tx (λ n o. if n == b.id.number then some b.id.hash else o) in
      Ends-bind (λ _. Unit {0}) Q R _ _
        (Ends-query (λ _. Unit {0}) R _ _ tx
          (λ _ e db n. L.upsert_block_writes _ _ _ _ _ fit db tx e n) (λ _ _. tt))
        λ _ tx' w.
          Ends-map (λ _. Unit {0}) (λ _. Unit {0})
            (λ _. Wrote tx' (λ n o. if ltb n (prune_below retention b.id.number) then none else o))
            Q _ (Ends-prune b.id.number tx')
            (λ _ tx'' w' db n. w' db n ∙ rw (w db n) (ground arith)) (λ _ _. tt)

module _ (pg : Postgres) (t : Tables pg) (L : IsPostgres pg t) (used : IsUsed pg t) where
  -- `PgStore` over a database that keeps its laws, where a commit that fails was refused by the server
  -- and what is registered creates indexes, keeps the contract of `Store` on the framework's rows, with
  -- its retention.
  pub pg_store-IsStore :
      (Value : Type 0) (retention : ℕ)
      → IsStore (pg_store pg Value retention) (pg_view pg t Value retention) retention
  pg_store-IsStore Value retention = record {
    cursor_keeps = λ db. Ends-state (Holds pg t (t.contents db)) _ (
        Ends-map (Holds pg t (t.contents db)) (Holds pg t (t.contents db))
          (Found pg t (t.contents db)) (λ _. Holds pg t (t.contents db)) _
          (Ends-cursor pg t L.reads db) (λ _ _ h. h.0) (λ _ h. h));
    cursor_none = λ db e. (cursor-Found pg t L.reads db none e).1.0 refl;
    cursor_some = λ db c e. (cursor-Found pg t L.reads db (some c) e).1.1 c refl;
    hash_at_keeps = λ h db. unfold hash_at query in L.reads.select_hash_keeps h db;
    hash_at_reads = λ h db o e. hash_at-reads pg t L.reads h db o e;
    begin_keeps = λ db. unfold query in L.begin_keeps db;
    begin_opens = λ db tx e.
        Ends-ok (λ tx' u. t.pending u tx' ≡ t.contents db) (λ _. Unit {0}) _ tx
          (Ends-query (λ _. Unit {0}) (λ tx' u. t.pending u tx' ≡ t.contents db) _ pg.begin db
            (λ tx' q. L.begin_opens db tx' q) (λ _ _. tt))
          e;
    set_cursor_writes = λ b db tx fit e n.
        Ends-ok (λ _. Advanced pg t L retention b.id tx) (λ _. Unit {0}) _ tt
          (Ends-set_cursor pg t L retention b tx fit) e db n;
    commit_applies = λ tx db e.
        Ends-ok (λ _ u. t.contents u ≡ t.pending db tx) (λ _. Unit {0}) _ tt
          (Ends-query (λ _. Unit {0}) (λ _ u. t.contents u ≡ t.pending db tx) _ (pg.commit tx) db
            (λ _ q. L.commit_applies tx db q) (λ _ _. tt))
          e;
    commit_fails = λ tx db x e.
        Ends-err (λ _ _. Unit {0}) (Holds pg t (t.contents db)) _ x
          (Ends-query (Holds pg t (t.contents db)) (λ _ _. Unit {0}) _ (pg.commit tx) db (λ _ _. tt)
            (λ s q. L.commit_fails tx db s (used.commit_answers tx db s q) q))
          e;
    rollback_applies = λ h db below e.
        Ends-ok (λ _ u. (n : ℕ) → t.table (t.contents u) n ≡ truncate h (t.table (t.contents db)) n)
          (Holds pg t (t.contents db)) _ tt (Ends-rollback_to pg t L used h db) e;
    rollback_fails = λ h db x e.
        Ends-err
          (λ _ u. (n : ℕ) → t.table (t.contents u) n ≡ truncate h (t.table (t.contents db)) n)
          (Holds pg t (t.contents db)) _ x (Ends-rollback_to pg t L used h db) e;
    backfilled_keeps = λ db n. on_backfill_complete-keeps pg t L used db n;
  }
