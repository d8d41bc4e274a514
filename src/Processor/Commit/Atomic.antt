-- ===== src/Processor/Commit/Atomic.antt =====
-- `commit_batch` and `commit_block` that fail: their effect on what is committed.
use subdex.Prelude.{ℕ, ◌≡◌, refl, ◌∙◌, ap, Option, none, some, arith, List, [], ◌∷◌}
use subdex.Core.Error.{SubdexError, Result, ok, err}
use subdex.Core.Types.{Block}
use subdex.Core.Traits.{Store, Prepared, Handler}
use subdex.Core.StoreLaws.{View, IsStore}
use subdex.Exec.{Exec, continue, inspect}
use subdex.Exec.Fails.{Fails, Fails-ok, Fails-inspect, Fails-bind, Fails-step}
use subdex.Processor.{Processor, World, on_store, on_tx, report}
use subdex.Processor.Commit.{
  commit_block, commit_batch, prepare_all, write_one, write_all, process_all, set_cursors,
}

db-continue :
    {Db Src A B : Type 0} {d : Db} (r : Result A × World Db Src) (f : A → Exec (World Db Src) B)
    → r.1.db ≡ d
    → ((a : A) (u : World Db Src) → (f a u).1.db ≡ u.db)
    → (continue r f).1.db ≡ d
unfolding continue
db-continue (ok a, u) f h k = k a u ∙ h
db-continue (err e, u) f h k = h

db-on_tx :
    {Db Src Tx : Type 0} (m : Exec Tx (Unit {0})) (tx : Tx) (w : World Db Src)
    → (on_tx m tx w).1.db ≡ w.db
unfolding on_tx
db-on_tx m tx w = refl

-- The steps on a transaction touch no store: whatever they end in, `db` is the same.
module _ {Value : Type 0} (S : Store Value) {Src : Type 0} where
  db-write_one :
      (h : Handler S) (o : Option (Prepared S)) (bs : List (Block Value)) (tx : S.Tx)
      (w : World S.Db Src)
      → (write_one S h o bs tx w).1.db ≡ w.db
  unfolding write_one on_tx inspect
  db-write_one h none bs tx w = ground arith
  db-write_one h (some m) bs tx w = ground arith

  db-write_all :
      (hs : List (Handler S)) (os : List (Option (Prepared S))) (bs : List (Block Value))
      (tx : S.Tx) (w : World S.Db Src)
      → (write_all S hs os bs tx w).1.db ≡ w.db
  unfolding write_all
  db-write_all [] os bs tx w = refl
  db-write_all (h ∷ hs) [] bs tx w = refl
  db-write_all (h ∷ hs) (o ∷ os) bs tx w =
      db-continue (write_one S h o bs tx w) (λ tx'. write_all S hs os bs tx')
        (db-write_one h o bs tx w) (λ tx' u. db-write_all hs os bs tx' u)

  db-process_all :
      (hs : List (Handler S)) (b : Block Value) (tx : S.Tx) (w : World S.Db Src)
      → (process_all S hs b tx w).1.db ≡ w.db
  unfolding process_all
  db-process_all [] b tx w = refl
  db-process_all (h ∷ hs) b tx w =
      db-continue (on_tx (h.process_block b) tx w) (λ tx'. process_all S hs b tx')
        (db-on_tx (h.process_block b) tx w) (λ tx' u. db-process_all hs b tx' u)

  db-set_cursors :
      (bs : List (Block Value)) (tx : S.Tx) (w : World S.Db Src)
      → (set_cursors S bs tx w).1.db ≡ w.db
  unfolding set_cursors
  db-set_cursors [] tx w = refl
  db-set_cursors (b ∷ bs) tx w =
      db-continue (on_tx (S.set_cursor b) tx w) (λ tx'. set_cursors S bs tx')
        (db-on_tx (S.set_cursor b) tx w) (λ tx' u. db-set_cursors bs tx' u)

module _ {Value : Type 0} (p : Processor Value) (v : View p.store) (retention : ℕ)
    (L : IsStore p.store v retention) (w : World p.store.Db p.source.Src) where
  abbrev Kept : World p.store.Db p.source.Src → Type 0
  Kept u = v.contents u.db ≡ v.contents w.db

  commit-Fails :
      (tx : p.store.Tx) (u : World p.store.Db p.source.Src)
      → Kept u
      → Fails (on_store (p.store.commit tx) u) Kept
  unfolding on_store
  commit-Fails tx u k = record { at = λ e h. L.commit_fails tx u.db e h ∙ k }

  begin-Kept : (u : World p.store.Db p.source.Src) → Kept u → Kept (on_store p.store.begin u).1
  unfolding on_store
  begin-Kept u k = L.begin_keeps u.db ∙ k

  prepare-Kept : {A : Type 0} (r : Result A) → Kept (inspect (report "prepare") (r, w)).1
  unfolding inspect
  prepare-Kept (ok a) = refl
  prepare-Kept (err e) = refl

  -- Every step but the last keeps what is committed, whether it fails or not.
  commit_block-Fails : (b : Block Value) → Fails (commit_block p b w) Kept
  unfolding commit_block
  commit_block-Fails b = Fails-step (on_store p.store.begin w) _ (begin-Kept w refl) λ tx u k.
      Fails-step (process_all p.store p.handlers b tx u) _
        (ap v.contents (db-process_all p.store p.handlers b tx u) ∙ k)
        λ tx' u' k'.
          Fails-step (on_tx (p.store.set_cursor b) tx' u') _
            (ap v.contents (db-on_tx (p.store.set_cursor b) tx' u') ∙ k')
            λ tx'' u'' k''. commit-Fails tx'' u'' k''

  commit_batch-Fails : (bs : List (Block Value)) → Fails (commit_batch p bs w) Kept
  unfolding commit_batch
  commit_batch-Fails [] = Fails-ok tt w
  commit_batch-Fails (b ∷ bs) =
      Fails-step _ _ (prepare-Kept (prepare_all p.store p.handlers (b ∷ bs))) λ os u k.
        Fails-step (on_store p.store.begin u) _ (begin-Kept u k) λ tx u k.
          Fails-step (write_all p.store p.handlers os (b ∷ bs) tx u) _
            (ap v.contents (db-write_all p.store p.handlers os (b ∷ bs) tx u) ∙ k)
            λ tx u k.
              Fails-step (set_cursors p.store (b ∷ bs) tx u) _
                (ap v.contents (db-set_cursors p.store (b ∷ bs) tx u) ∙ k)
                λ tx u k.
                  Fails-bind _ _
                    (Fails-inspect (report "commit") (on_store (p.store.commit tx) u)
                      (commit-Fails tx u k).at)
                    λ _ u _. Fails-ok tt _

module _ {Value : Type 0} (p : Processor Value) where
  -- Whatever step of `commit_block` fails, the committed contents are the same as before the call.
  commit_block_atomic :
      (v : View p.store) (retention : ℕ)
      → IsStore p.store v retention
      → (b : Block Value) (w : World p.store.Db p.source.Src) (e : SubdexError)
      → (commit_block p b w).0 ≡ err e
      → v.contents (commit_block p b w).1.db ≡ v.contents w.db
  commit_block_atomic v r L b w e h = (commit_block-Fails p v r L w b).at e h

  -- Whatever step of `commit_batch` fails (a handler's `prepare` or write, the cursor's rows, the
  -- commit itself), the committed contents are the same as before the call.
  pub commit_batch_atomic :
      (v : View p.store) (retention : ℕ)
      → IsStore p.store v retention
      → (bs : List (Block Value)) (w : World p.store.Db p.source.Src) (e : SubdexError)
      → (commit_batch p bs w).0 ≡ err e
      → v.contents (commit_batch p bs w).1.db ≡ v.contents w.db
  commit_batch_atomic v r L bs w e h = (commit_batch-Fails p v r L w bs).at e h
