-- ===== src/Processor/Commit/Partial.antt =====
-- `commit_batch` where any call of the store and of the handlers may fail.
use mathlib.Core.Path.{fun_ext}
use subdex.Prelude.{
  ℕ, ◌≡◌, refl, ◌∙◌, ap, Option, none, some, inl, inr, List, [], ◌∷◌, All, length, last_or,
}
use subdex.Core.Error.{SubdexError, Result, ok, err, Result-cases}
use subdex.Core.Types.{Block, Fits}
use subdex.Core.Traits.{Store, Prepared, Handler, on_batch_committed}
use subdex.Core.StoreLaws.{Rows, advance, View, IsStore, Respects}
use subdex.Exec.{Exec, ◌>>=◌, ◌>>◌, continue, inspect_err}
use subdex.Exec.Ends.{Ends, Ends-ok, Ends-bind, Ends-map, Ends-inspect}
use subdex.Processor.{Processor, World, on_store, on_tx, notify, report}
use subdex.Processor.Commit.{
  commit_batch, prepare_all, write_one, write_all, set_cursors, event_count,
}
use subdex.Processor.Commit.Steps.{Belong, Changes, advance_all}
use subdex.Processor.Commit.Advances.{rows}

-- A call of the store: what holds of its answer and what it leaves, or of what it leaves beside an
-- error.
pub Ends-on_store :
    {Db Src A : Type 0} (F : World Db Src → Type 0) (Q : A → World Db Src → Type 0) (m : Exec Db A)
    (w : World Db Src)
    → ((a : A) → (m w.db).0 ≡ ok a → Q a (record w { db = (m w.db).1 }))
    → ((e : SubdexError) → (m w.db).0 ≡ err e → F (record w { db = (m w.db).1 }))
    → Ends Q F (on_store m w)
unfolding on_store Ends
Ends-on_store F Q m w q f = elim (Result-cases (m w.db).0) [
  | inl (a, h) ↦ rw h (q a h)
  | inr (e, h) ↦ rw h (f e h)
]

module _ {Value : Type 0} (S : Store Value) (v : View S) {Src : Type 0} where
  -- After a step that fails the store is as it was: the transaction is dropped.
  abbrev Drops : World S.Db Src → World S.Db Src → Type 0
  Drops w u = u.db ≡ w.db

  Ends-on_tx :
      (m : Exec S.Tx (Unit {0})) (tx : S.Tx) (w : World S.Db Src) (f : Rows → Rows)
      → ((m tx).0 ≡ ok tt
          → (db : S.Db) → v.row (v.pending db (m tx).1) ≡ f (v.row (v.pending db tx)))
      → Ends (Changes S v f tx w) (Drops w) (on_tx m tx w)
  unfolding on_tx Ends
  Ends-on_tx m tx w f k = elim (Result-cases (m tx).0) [
    | inl (a, h) ↦ rw h (refl, k h)
    | inr (e, h) ↦ rw h refl
  ]

  Ends-prepare_all :
      (hs : List (Handler S)) (bs : List (Block Value)) (w : World S.Db Src)
      → Ends (λ os u. (u ≡ w) × Belong S v bs hs os) (λ u. u ≡ w) (prepare_all S hs bs, w)
  unfolding prepare_all Ends
  Ends-prepare_all [] bs w = (refl, tt)
  Ends-prepare_all (h ∷ hs) bs w = elim (Result-cases (h.prepare bs)) [
    | inr (e, r) ↦ rw r refl
    | inl (o, r) ↦ elim (Result-cases (prepare_all S hs bs)) [
      | inr (e, r') ↦ rw (r, r') refl
      | inl (os, r') ↦
          let rest =
            Ends-ok (λ os u. (u ≡ w) × Belong S v bs hs os) (λ u. u ≡ w) _ os
              (Ends-prepare_all hs bs w) r' in
          rw (r, r') (refl, (r, rest.1))
    ]
  ]

  Ends-write_one :
      (h : Handler S) (o : Option (Prepared S)) (bs : List (Block Value)) (tx : S.Tx)
      (w : World S.Db Src)
      → Respects S v h
      → h.prepare bs ≡ ok o
      → Ends (Changes S v (λ r. r) tx w) (Drops w) (write_one S h o bs tx w)
  unfolding write_one
  Ends-write_one h none bs tx w g e =
      Ends-inspect (Drops w) (Changes S v (λ r. r) tx w) (report "handler") _
        (Ends-on_tx (h.process_batch bs) tx w (λ r. r) (λ _ db. g.batch_keeps bs db tx))
        (λ e u k. k)
  Ends-write_one h (some m) bs tx w g e =
      Ends-inspect (Drops w) (Changes S v (λ r. r) tx w) (report "handler") _
        (Ends-on_tx m tx w (λ r. r) (λ _ db. g.write_keeps bs m e db tx)) (λ e u k. k)

  -- Two steps in a row.
  Ends-then :
      (f g : Rows → Rows) (tx : S.Tx) (w : World S.Db Src) (r : Result S.Tx × World S.Db Src)
      (next : S.Tx → Exec (World S.Db Src) S.Tx)
      → Ends (Changes S v f tx w) (Drops w) r
      → ((tx' : S.Tx) (u : World S.Db Src) → Ends (Changes S v g tx' u) (Drops u) (next tx' u))
      → Ends (Changes S v (λ x. g (f x)) tx w) (Drops w) (continue r next)
  Ends-then f g tx w r next h k =
      Ends-bind (Drops w) (Changes S v (λ x. g (f x)) tx w) (Changes S v f tx w) r next h λ tx' u c.
        Ends-map (Drops u) (Drops w) (Changes S v g tx' u) (Changes S v (λ x. g (f x)) tx w) _
          (k tx' u) (λ tx'' u' c'. (c'.0 ∙ c.0, λ db. c'.1 db ∙ ap g (c.1 db)))
          (λ u' d. d ∙ ap (λ x. x.db) c.0)

  Ends-write_all :
      (hs : List (Handler S)) (os : List (Option (Prepared S))) (bs : List (Block Value))
      (tx : S.Tx) (w : World S.Db Src)
      → All (Respects S v) hs
      → Belong S v bs hs os
      → Ends (Changes S v (λ r. r) tx w) (Drops w) (write_all S hs os bs tx w)
  unfolding write_all Ends
  Ends-write_all [] os bs tx w g b = (refl, λ db. refl)
  Ends-write_all (h ∷ hs) [] bs tx w g b = absurd b
  Ends-write_all (h ∷ hs) (o ∷ os) bs tx w (g, gs) (e, b) =
      Ends-then (λ r. r) (λ r. r) tx w _ _ (Ends-write_one h o bs tx w g e)
        λ tx' u. Ends-write_all hs os bs tx' u gs b

  Ends-set_cursors :
      (retention : ℕ)
      → IsStore S v retention
      → (bs : List (Block Value)) (tx : S.Tx) (w : World S.Db Src) → All Fits bs
      → Ends (Changes S v (advance_all retention bs) tx w) (Drops w) (set_cursors S bs tx w)
  unfolding set_cursors Ends
  Ends-set_cursors retention L [] tx w _ = (refl, λ db. refl)
  Ends-set_cursors retention L (b ∷ bs) tx w (fit, fits) =
      Ends-then (advance retention b.id) (advance_all retention bs) tx w _ _
        (Ends-on_tx (S.set_cursor b) tx w (advance retention b.id)
          (λ h db. fun_ext (L.set_cursor_writes b db tx fit h)))
        λ tx' u. Ends-set_cursors retention L bs tx' u fits

module _ {Value : Type 0} (p : Processor Value) (v : View p.store) (retention : ℕ)
    (L : IsStore p.store v retention) (g : All (Respects p.store v) p.handlers) where
  abbrev Same : World p.store.Db p.source.Src → World p.store.Db p.source.Src → Type 0
  Same w u = v.contents u.db ≡ v.contents w.db

  -- The transaction from its opening on.
  module _ (b : Block Value) (bs : List (Block Value)) (w : World p.store.Db p.source.Src)
      (fits : All Fits (b ∷ bs)) where
    abbrev Advanced : Unit {0} → World p.store.Db p.source.Src → Type 0
    Advanced _ u = rows v u ≡ advance_all retention (b ∷ bs) (rows v w)

    committed :
        (tx : p.store.Tx) (u : World p.store.Db p.source.Src)
        → Same w u
        → v.row (v.pending u.db tx) ≡ advance_all retention (b ∷ bs) (rows v w)
        → Ends Advanced (Same w) (on_store (p.store.commit tx) u)
    committed tx u s k =
        Ends-on_store (Same w) Advanced (p.store.commit tx) u
          (λ _ e. ap v.row (L.commit_applies tx u.db e) ∙ k) (λ x e. L.commit_fails tx u.db x e ∙ s)

    written :
        (os : List (Option (Prepared p.store))) (tx : p.store.Tx)
        (u : World p.store.Db p.source.Src)
        → Belong p.store v (b ∷ bs) p.handlers os
        → v.pending u.db tx ≡ v.contents w.db
        → Same w u
        → Ends Advanced (Same w) (
            (write_all p.store p.handlers os (b ∷ bs) tx >>= λ tx'.
            set_cursors p.store (b ∷ bs) tx' >>= λ tx''.
            inspect_err (report "commit") (on_store (p.store.commit tx''))
            >> notify (
                on_batch_committed
                  (last_or b bs).id.number
                  (length (b ∷ bs))
                  (event_count (b ∷ bs))))
              u)
    unfolding Ends
    written os tx u belong opened s =
        let R₁ = Changes p.store v (λ r. r) tx u in
        Ends-bind (Same w) Advanced R₁ _ _
          (Ends-map (λ x. x.db ≡ u.db) (Same w) R₁ R₁ _
            (Ends-write_all p.store v p.handlers os (b ∷ bs) tx u g belong) (λ _ _ c. c)
            (λ x d. ap v.contents d ∙ s))
          λ tx' u' c.
            let s' : Same w u' = ap (λ x. v.contents x.db) c.0 ∙ s in
            let R₂ = Changes p.store v (advance_all retention (b ∷ bs)) tx' u' in
            Ends-bind (Same w) Advanced R₂ _ _
              (Ends-map (λ x. x.db ≡ u'.db) (Same w) R₂ R₂ _
                (Ends-set_cursors p.store v retention L (b ∷ bs) tx' u' fits) (λ _ _ d. d)
                (λ x d. ap v.contents d ∙ s'))
              λ tx'' u'' d.
                Ends-bind (Same w) Advanced Advanced _ _
                  (Ends-inspect (Same w) Advanced (report "commit") _
                    (committed tx'' u'' (ap (λ x. v.contents x.db) d.0 ∙ s') (
                      d.1 u''.db
                      ∙ ap (advance_all retention (b ∷ bs)) (
                          c.1 u''.db
                          ∙ ap (λ x. v.row (v.pending x.db tx)) (d.0 ∙ c.0)
                          ∙ ap v.row opened)))
                    (λ e x k. k))
                  λ _ x k. k

  -- `commit_batch` either succeeds, and the rows are as after advancing to each block, or fails, and
  -- they are as before.
  pub Ends-commit_batch :
      (b : Block Value) (bs : List (Block Value)) (w : World p.store.Db p.source.Src)
      → All Fits (b ∷ bs)
      → Ends
          (λ _ u. rows v u ≡ advance_all retention (b ∷ bs) (rows v w))
          (Same w)
          (commit_batch p (b ∷ bs) w)
  unfolding commit_batch
  Ends-commit_batch b bs w fits =
      let F = Same w in
      let Q = Advanced b bs w fits in
      Ends-bind F Q (λ os u. (u ≡ w) × Belong p.store v (b ∷ bs) p.handlers os) _ _
        (Ends-inspect F (λ os u. (u ≡ w) × Belong p.store v (b ∷ bs) p.handlers os)
          (report "prepare") _
          (Ends-map (λ u. u ≡ w) F (λ os u. (u ≡ w) × Belong p.store v (b ∷ bs) p.handlers os)
            (λ os u. (u ≡ w) × Belong p.store v (b ∷ bs) p.handlers os) _
            (Ends-prepare_all p.store v p.handlers (b ∷ bs) w) (λ _ _ c. c)
            (λ u e. ap (λ x. v.contents x.db) e))
          (λ e u k. k))
        λ os u₁ h₁.
          let c = ap (λ x. v.contents x.db) h₁.0 in
          Ends-bind F Q (λ tx u. (v.pending u.db tx ≡ v.contents w.db) × Same w u) _ _
            (Ends-on_store F (λ tx u. (v.pending u.db tx ≡ v.contents w.db) × Same w u)
              p.store.begin u₁ (λ tx e. (L.begin_opens u₁.db tx e ∙ c, L.begin_keeps u₁.db ∙ c))
              (λ e _. L.begin_keeps u₁.db ∙ c))
            λ tx u₂ h₂. written b bs w fits os tx u₂ h₁.1 h₂.0 h₂.1
