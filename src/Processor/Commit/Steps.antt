-- ===== src/Processor/Commit/Steps.antt =====
-- The steps of a commit over a store that is up and handlers that do not fail.
use mathlib.Core.Path.{fun_ext}
use subdex.Prelude.{ℕ, ◌≡◌, refl, ◌∙◌, ap, Option, none, some, List, [], ◌∷◌, All}
use subdex.Core.Error.{ok}
use subdex.Core.Types.{Block, Fits}
use subdex.Core.Traits.{Store, Prepared, Handler}
use subdex.Core.StoreLaws.{Rows, advance, View, IsStore, IsAvailable, Respects, Succeeds}
use subdex.Exec.{Exec}
use subdex.Exec.Runs.{Runs, Runs-pure, Runs-map, Runs-inspect, Runs-bind}
use subdex.Processor.{World, on_store, on_tx, report}
use subdex.Processor.Commit.{prepare_all, write_one, write_all, process_all, set_cursors}

-- The rows after the cursor has advanced to each block in turn.
abbrev pub advance_all : {Value : Type 0} → ℕ → List (Block Value) → Rows → Rows
advance_all retention [] rows = rows
advance_all retention (b ∷ bs) rows = advance_all retention bs (advance retention b.id rows)

on_tx-ok :
    {Db Src Tx : Type 0} (m : Exec Tx (Unit {0})) (tx : Tx) (w : World Db Src)
    → (m tx).0 ≡ ok tt
    → on_tx m tx w ≡ (ok (m tx).1, w)
unfolding on_tx
on_tx-ok m tx w h = rw h

pub Runs-on_store :
    {Db Src A : Type 0} (m : Exec Db A) (w : World Db Src) {a : A}
    → (m w.db).0 ≡ ok a
    → Runs (on_store m w) (λ x u. (x ≡ a) × (u ≡ record w { db = (m w.db).1 }))
unfolding on_store
Runs-on_store m w {a} h = record {
  value = a;
  state = record w { db = (m w.db).1 };
  eq = λ i. (h i, record w { db = (m w.db).1 });
  post = (refl, refl);
}

-- A handler whose writes stay off the framework's table, and whose calls do not fail.
abbrev pub IsGood : {Value : Type 0} (S : Store Value) → View S → Handler S → Type 0
IsGood S v h = Respects S v h × Succeeds S h

module _ {Value : Type 0} (S : Store Value) (v : View S) where
  -- `prepared[i]` belongs to `handlers[i]`.
  abbrev pub Belong : List (Block Value) → List (Handler S) → List (Option (Prepared S)) → Type 0
  Belong bs [] os = Unit
  Belong bs (h ∷ hs) [] = ⊥
  Belong bs (h ∷ hs) (o ∷ os) = (h.prepare bs ≡ ok o) × Belong bs hs os

  pub prepare_all_lem :
      (hs : List (Handler S)) (bs : List (Block Value))
      → All (IsGood S v) hs
      → (os : List (Option (Prepared S))) × (prepare_all S hs bs ≡ ok os) × Belong bs hs os
  unfolding prepare_all
  prepare_all_lem [] bs g = ([], refl, tt)
  prepare_all_lem (h ∷ hs) bs (g, gs) =
      let (o, e) = g.1.prepare_works bs in
      let (os, e', b) = prepare_all_lem hs bs gs in (o ∷ os, rw (e, e') refl, (e, b))

module _ {Value : Type 0} (S : Store Value) (v : View S) {Src : Type 0} where
  -- A step from `tx` and `w` that changes the pending rows by `f` alone.
  abbrev pub Changes : (Rows → Rows) → S.Tx → World S.Db Src → S.Tx → World S.Db Src → Type 0
  Changes f tx w tx' u =
      (u ≡ w) × ((db : S.Db) → v.row (v.pending db tx') ≡ f (v.row (v.pending db tx)))

  Runs-on_tx :
      (m : Exec S.Tx (Unit {0})) (tx : S.Tx) (w : World S.Db Src) (f : Rows → Rows)
      → (m tx).0 ≡ ok tt
      → ((db : S.Db) → v.row (v.pending db (m tx).1) ≡ f (v.row (v.pending db tx)))
      → Runs (on_tx m tx w) (Changes f tx w)
  Runs-on_tx m tx w f h k = record {
    value = (m tx).1;
    state = w;
    eq = on_tx-ok m tx w h;
    post = (refl, k);
  }

  Runs-write_one :
      (h : Handler S) (o : Option (Prepared S)) (bs : List (Block Value)) (tx : S.Tx)
      (w : World S.Db Src)
      → IsGood S v h
      → h.prepare bs ≡ ok o
      → Runs (write_one S h o bs tx w) (Changes (λ r. r) tx w)
  unfolding write_one
  Runs-write_one h none bs tx w g e = Runs-inspect (report "handler") _ (
      Runs-on_tx (h.process_batch bs) tx w (λ r. r) (g.1.batch_works bs tx)
        (λ db. g.0.batch_keeps bs db tx))
  Runs-write_one h (some m) bs tx w g e =
      Runs-inspect (report "handler") _ (
        Runs-on_tx m tx w (λ r. r) (g.1.write_works bs m e tx) (λ db. g.0.write_keeps bs m e db tx))

  pub Runs-write_all :
      (hs : List (Handler S)) (os : List (Option (Prepared S))) (bs : List (Block Value))
      (tx : S.Tx) (w : World S.Db Src)
      → All (IsGood S v) hs
      → Belong S v bs hs os
      → Runs (write_all S hs os bs tx w) (Changes (λ r. r) tx w)
  unfolding write_all
  Runs-write_all [] os bs tx w g b = Runs-pure tx w (refl, λ db. refl)
  Runs-write_all (h ∷ hs) [] bs tx w g b = absurd b
  Runs-write_all (h ∷ hs) (o ∷ os) bs tx w (g, gs) (e, b) =
      Runs-bind _ _ (Runs-write_one h o bs tx w g e) λ tx' u c.
        Runs-map (Runs-write_all hs os bs tx' u gs b)
          λ tx'' u' c'. (c'.0 ∙ c.0, λ db. c'.1 db ∙ c.1 db)

  pub Runs-process_all :
      (hs : List (Handler S)) (b : Block Value) (tx : S.Tx) (w : World S.Db Src)
      → All (IsGood S v) hs
      → Runs (process_all S hs b tx w) (Changes (λ r. r) tx w)
  unfolding process_all
  Runs-process_all [] b tx w g = Runs-pure tx w (refl, λ db. refl)
  Runs-process_all (h ∷ hs) b tx w (g, gs) =
      Runs-bind _ _
        (Runs-on_tx (h.process_block b) tx w (λ r. r) (g.1.block_works b tx)
          (λ db. g.0.block_keeps b db tx))
        λ tx' u c.
          Runs-map (Runs-process_all hs b tx' u gs)
            λ tx'' u' c'. (c'.0 ∙ c.0, λ db. c'.1 db ∙ c.1 db)

  module _ (retention : ℕ) (L : IsStore S v retention) (up : IsAvailable S) where
    pub Runs-set_cursor :
        (b : Block Value) (tx : S.Tx) (w : World S.Db Src)
        → Fits b
        → Runs (on_tx (S.set_cursor b) tx w) (Changes (advance retention b.id) tx w)
    Runs-set_cursor b tx w fit =
        Runs-on_tx (S.set_cursor b) tx w (advance retention b.id) (up.set_cursor_answers b tx)
          λ db. fun_ext (L.set_cursor_writes b db tx fit (up.set_cursor_answers b tx))

    pub Runs-set_cursors :
        (bs : List (Block Value)) (tx : S.Tx) (w : World S.Db Src)
        → All Fits bs
        → Runs (set_cursors S bs tx w) (Changes (advance_all retention bs) tx w)
    unfolding set_cursors
    Runs-set_cursors [] tx w _ = Runs-pure tx w (refl, λ db. refl)
    Runs-set_cursors (b ∷ bs) tx w (fit, fits) =
        Runs-bind _ _ (Runs-set_cursor b tx w fit) λ tx' u c.
          Runs-map (Runs-set_cursors bs tx' u fits)
            λ tx'' u' c'. (c'.0 ∙ c.0, λ db. c'.1 db ∙ ap (advance_all retention bs) (c.1 db))
