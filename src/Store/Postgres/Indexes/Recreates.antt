-- ===== src/Store/Postgres/Indexes/Recreates.antt =====
-- `on_backfill_complete` of `PgStore` recreates what is deferred, and loses no index where it stops.
use subdex.Prelude.{
  ◌≡◌, ◌∙◌, sym, ap, subst, inl, inr, String, str_eq, true, none, some, List, [], ◌∷◌, All,
  if◌then◌else◌, Option-cases,
}
use subdex.Exec.Ends.{Ends, Ends-bind, Ends-map}
use subdex.Store.Postgres.{Postgres, recreate, recreate_all, on_backfill_complete}
use subdex.Store.Postgres.Steps.{Ends-query}
use subdex.Store.Postgres.Indexes.{
  find, Catalog, Created, Registers, IsCatalog, IsKept, IsRegistry, Keeps, Left, Open, Ends-began,
  Ends-change, Ends-close,
}
use subdex.Store.Postgres.Indexes.Changes.{
  Keeps-refl, Keeps-trans, Recreated, Recreated-Keeps, Cleared, Cleared-none, Cleared-some,
}

All-map :
    (P Q : String → String → Type 0) (rows : List (String × String))
    → ((n ddl : String) → P n ddl → Q n ddl)
    → All (λ (n, ddl). P n ddl) rows
    → All (λ (n, ddl). Q n ddl) rows
All-map P Q [] f h = tt
All-map P Q ((n, ddl) ∷ rows) f (p, ps) = (f n ddl p, All-map P Q rows f ps)

module _ (pg : Postgres) (t : Catalog pg) (L : IsCatalog pg t) where
  -- The contents after a round are `C`, or the index is recreated.
  Ends-recreate :
      (name ddl : String) (db : pg.Db)
      → t.Creates ddl name
      → Ends
          (λ _ u. Recreated pg t name (t.contents db) (t.contents u))
          (Left pg t (t.contents db) (Recreated pg t name (t.contents db)))
          (recreate pg name ddl db)
  unfolding recreate
  Ends-recreate name ddl db creates =
      let C = t.contents db in
      let Q : Unit {0} → pg.Db → Type 0 = λ _ u. Recreated pg t name C (t.contents u) in
      let P : t.Contents → Type 0 = Created pg t name C in
      let K : t.Contents → Type 0 = Recreated pg t name C in
      let F : pg.Db → Type 0 = Left pg t C K in
      Ends-bind F Q (Open pg t C (λ D. D ≡ C)) _ _ (Ends-began pg t L K _ db) λ tx u o.
        Ends-bind F Q (Open pg t C P) _ _
          (Ends-change pg t L C (λ D. D ≡ C) P K (Created pg t name) _ _ tx u
            (L.execute_in_creates ddl name creates)
            (λ D E e c. subst (λ X. Created pg t name X E) e c) o)
          λ tx' u' o'.
            Ends-bind F Q (Open pg t C (Recreated pg t name C)) _ _
              (Ends-change pg t L C P K K (Registers pg t name none) _ _ tx' u'
                (L.clear_writes name)
                (λ D E c (cleared, same). record {
                  there = same name ∙ c.there;
                  stays = λ n e. same n ∙ c.stays n e;
                  registry =
                      λ n. cleared n ∙ ap (λ o. if str_eq n name then none else o) (c.registry n);
                })
                o')
              λ tx'' u'' o''. Ends-close pg t L C (Recreated pg t name C) _ tx'' u'' o''

  Ends-recreate_all :
      (rows : List (String × String)) (db : pg.Db)
      → All (λ (n, ddl). t.Creates ddl n) rows
      → IsRegistry pg t (t.contents db)
      → Ends
          (λ _ u. Cleared pg t rows (t.contents db) (t.contents u))
          (λ u. Keeps pg t (t.contents db) (t.contents u))
          (recreate_all pg rows db)
  unfolding recreate_all Ends
  Ends-recreate_all [] db c r = Cleared-none pg t (t.contents db) r
  Ends-recreate_all ((name, ddl) ∷ rows) db (c, cs) r =
      let C = t.contents db in
      let F : pg.Db → Type 0 = λ u. Keeps pg t C (t.contents u) in
      let Q : Unit {0} → pg.Db → Type 0 =
        λ _ u. Cleared pg t ((name, ddl) ∷ rows) C (t.contents u) in
      let R : Unit {0} → pg.Db → Type 0 = λ _ u. Recreated pg t name C (t.contents u) in
      Ends-bind F Q R _ _
        (Ends-map (Left pg t C (Recreated pg t name C)) F R R _ (Ends-recreate name ddl db c)
          (λ _ u x. x)
          (λ u e. elim e [
            | inl same ↦ subst (Keeps pg t C) (sym same) (Keeps-refl pg t C r)
            | inr x ↦ Recreated-Keeps pg t name C (t.contents u) r x
          ]))
        λ _ u x.
          let kept = Recreated-Keeps pg t name C (t.contents u) r x in
          Ends-map (λ u'. Keeps pg t (t.contents u) (t.contents u')) F
            (λ _ u'. Cleared pg t rows (t.contents u) (t.contents u')) Q _
            (Ends-recreate_all rows u cs kept.registry)
            (λ _ u' y. Cleared-some pg t name ddl rows C (t.contents u) (t.contents u') x y)
            (λ u' k. Keeps-trans pg t kept k)

  -- `on_backfill_complete` over a registry whose statements create the indexes that they stand for. Where
  -- it succeeds, nothing is registered any more, and every index that was there or registered is
  -- there. Where it fails, wherever it stopped, a lost answer of a COMMIT included, every such index is
  -- still there or registered, and the registry is one again, so that the next call finishes the work.
  pub on_backfill_complete-IsKept :
      (db : pg.Db)
      → IsRegistry pg t (t.contents db)
      → Ends
          (λ _ u.
            (n : String)
            → (t.deferred (t.contents u) n ≡ none)
              × (IsKept pg t (t.contents db) n → t.present (t.contents u) n ≡ true))
          (λ u. Keeps pg t (t.contents db) (t.contents u))
          (on_backfill_complete pg db)
  unfolding on_backfill_complete
  on_backfill_complete-IsKept db r =
      let C = t.contents db in
      let F : pg.Db → Type 0 = λ u. Keeps pg t C (t.contents u) in
      let Q : Unit {0} → pg.Db → Type 0 = λ _ u.
        (n : String)
        → (t.deferred (t.contents u) n ≡ none)
          × (IsKept pg t C n → t.present (t.contents u) n ≡ true) in
      let R : List (String × String) → pg.Db → Type 0 = λ rows u.
        (t.contents u ≡ C)
        × ((n : String) → t.deferred C n ≡ find n rows)
        × All (λ (n, ddl). t.deferred C n ≡ some ddl) rows in
      let kept : (u : pg.Db) → t.contents u ≡ C → F u =
        λ u e. subst (Keeps pg t C) (sym e) (Keeps-refl pg t C r) in
      Ends-bind F Q R _ _
        (Ends-query F R _ pg.select_deferred db
          (λ rows e.
            let (reads, listed) = L.select_deferred_reads db rows e in
            (L.select_deferred_keeps db, reads, listed))
          (λ x e. kept _ (L.select_deferred_keeps db)))
        λ rows u (same, reads, listed).
          let r' : IsRegistry pg t (t.contents u) = subst (IsRegistry pg t) (sym same) r in
          Ends-map (λ u'. Keeps pg t (t.contents u) (t.contents u')) F
            (λ _ u'. Cleared pg t rows (t.contents u) (t.contents u')) Q _
            (Ends-recreate_all rows u
              (All-map (λ n ddl. t.deferred C n ≡ some ddl) (λ n ddl. t.Creates ddl n) rows r
                listed)
              r')
            (λ _ u' y n.
              done rows C (t.contents u') n (reads n)
                (subst (λ X. Cleared pg t rows X (t.contents u')) same y))
            (λ u' k. subst (λ X. Keeps pg t X (t.contents u')) same k)
    where
      done :
          (rows : List (String × String)) (C D : t.Contents) (n : String)
          → t.deferred C n ≡ find n rows
          → Cleared pg t rows C D
          → (t.deferred D n ≡ none) × (IsKept pg t C n → t.present D n ≡ true)
      done rows C D n reads y = elim (Option-cases (t.deferred C n)) [
        | inl e ↦
            (y.gone n e, λ k. elim k [ inl p ↦ y.stays n p | inr (ddl, e') ↦ absurd (cc (e, e')) ])
        | inr (ddl, e) ↦ let f = y.found n ddl (sym reads ∙ e) in (f.1, λ _. f.0)
      ]
