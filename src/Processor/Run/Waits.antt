-- ===== src/Processor/Run/Waits.antt =====
-- The engine's calls other than `next_finalized` leave the place of a source's stream as it is.
pub mod Loop
use subdex.Prelude.{
  ℕ, zero, suc, ◌-◌, ◌≡◌, ◌∙◌, String, Bool, not, ◌&&◌, Option, none, some, List, [], ◌∷◌, first,
  ltb, leb, ◌==◌, str_eq, inl, inr, Bool-cases, Option-cases,
}
use subdex.Core.Error.{Result, SubdexError, ok, err}
use subdex.Core.Types.{Block}
use subdex.Core.Traits.{DataSource, Store, Handler, Prepared}
use subdex.Exec.{Exec, continue, inspect}
use subdex.Processor.{Processor, World, on_store, on_source, on_tx, report}
use subdex.Processor.Commit.{commit_batch, write_one, write_all, set_cursors}
use subdex.Processor.Reorg.{
  canonical_hash_at, fork_round, fork_loop, find_fork_point, rewind, check_stored, check_parent,
  process_batch_blocks,
}
use subdex.Processor.Run.{
  init_all, init, resume_height, window_end, backfill_batch, backfill_round, backfill_loop,
  backfill,
}

-- `finalized_head` and `fetch_batch` do not move the stream.
pub record Waits {Value : Type 0} (D : DataSource Value) (tip : D.Src → ℕ) : Type 0 where
  pub head_waits : (s : D.Src) → tip (D.finalized_head s).1 ≡ tip s
  pub fetch_waits : (from to : ℕ) (s : D.Src) → tip (D.fetch_batch from to s).1 ≡ tip s

module _ {Db Src : Type 0} (tip : Src → ℕ) (x : ℕ) where
  -- The state after a call has the stream at `x`.
  abbrev pub Stays : {A : Type 0} → Result A × World Db Src → Type 0
  Stays r = tip r.1.src ≡ x

  pub Stays-bind :
      {A B : Type 0} (r : Result A × World Db Src) (f : A → Exec (World Db Src) B)
      → Stays r
      → ((a : A) (u : World Db Src) → tip u.src ≡ x → Stays (f a u))
      → Stays (continue r f)
  unfolding continue
  Stays-bind (ok a, w) f h k = k a w h
  Stays-bind (err e, w) f h k = h

  pub Stays-inspect :
      {A : Type 0} (context : String) (r : Result A × World Db Src)
      → Stays r
      → Stays (inspect (report context) r)
  unfolding inspect
  Stays-inspect context (ok a, w) h = h
  Stays-inspect context (err e, w) h = h

  pub Stays-on_store :
      {A : Type 0} (m : Exec Db A) (w : World Db Src) → tip w.src ≡ x → Stays (on_store m w)
  unfolding on_store
  Stays-on_store m w h = h

  pub Stays-on_tx :
      {Tx : Type 0} (m : Exec Tx (Unit {0})) (tx : Tx) (w : World Db Src)
      → tip w.src ≡ x
      → Stays (on_tx m tx w)
  unfolding on_tx
  Stays-on_tx m tx w h = h

module _ {Value : Type 0} (S : Store Value) {Src : Type 0} (tip : Src → ℕ) (x : ℕ) where
  Stays-write_one :
      (h : Handler S) (o : Option (Prepared S)) (bs : List (Block Value)) (tx : S.Tx)
      (w : World S.Db Src)
      → tip w.src ≡ x
      → Stays tip x (write_one S h o bs tx w)
  unfolding write_one
  Stays-write_one h none bs tx w e =
      Stays-inspect tip x "handler" _ (Stays-on_tx tip x (h.process_batch bs) tx w e)
  Stays-write_one h (some m) bs tx w e =
      Stays-inspect tip x "handler" _ (Stays-on_tx tip x m tx w e)

  Stays-write_all :
      (hs : List (Handler S)) (os : List (Option (Prepared S))) (bs : List (Block Value))
      (tx : S.Tx) (w : World S.Db Src)
      → tip w.src ≡ x
      → Stays tip x (write_all S hs os bs tx w)
  unfolding write_all
  Stays-write_all [] os bs tx w e = e
  Stays-write_all (h ∷ hs) [] bs tx w e = e
  Stays-write_all (h ∷ hs) (o ∷ os) bs tx w e =
      Stays-bind tip x _ _ (Stays-write_one h o bs tx w e)
        λ tx' u e'. Stays-write_all hs os bs tx' u e'

  Stays-set_cursors :
      (bs : List (Block Value)) (tx : S.Tx) (w : World S.Db Src)
      → tip w.src ≡ x
      → Stays tip x (set_cursors S bs tx w)
  unfolding set_cursors
  Stays-set_cursors [] tx w e = e
  Stays-set_cursors (b ∷ bs) tx w e =
      Stays-bind tip x _ _ (Stays-on_tx tip x (S.set_cursor b) tx w e)
        λ tx' u e'. Stays-set_cursors bs tx' u e'

module _ {Value : Type 0} (p : Processor Value) (tip : p.source.Src → ℕ)
    (waits : Waits p.source tip) (x : ℕ) where
  abbrev W : Type 0
  W = World p.store.Db p.source.Src

  pub Stays-finalized_head :
      (w : W) → tip w.src ≡ x → Stays tip x (on_source p.source.finalized_head w)
  unfolding on_source
  Stays-finalized_head w e = waits.head_waits w.src ∙ e

  pub Stays-fetch :
      (from to : ℕ) (w : W)
      → tip w.src ≡ x
      → Stays tip x (on_source (p.source.fetch_batch from to) w)
  unfolding on_source
  Stays-fetch from to w e = waits.fetch_waits from to w.src ∙ e

  pub Stays-commit_batch :
      (bs : List (Block Value)) (w : W) → tip w.src ≡ x → Stays tip x (commit_batch p bs w)
  unfolding commit_batch
  Stays-commit_batch [] w e = e
  Stays-commit_batch (b ∷ bs) w e =
      Stays-bind tip x _ _ (Stays-inspect tip x "prepare" _ e) λ prepared u₁ e₁.
        Stays-bind tip x _ _ (Stays-on_store tip x p.store.begin u₁ e₁) λ tx u₂ e₂.
          Stays-bind tip x _ _ (Stays-write_all p.store tip x p.handlers prepared (b ∷ bs) tx u₂ e₂)
            λ tx' u₃ e₃.
              Stays-bind tip x _ _ (Stays-set_cursors p.store tip x (b ∷ bs) tx' u₃ e₃)
                λ tx'' u₄ e₄.
                  Stays-bind tip x _ _
                    (Stays-inspect tip x "commit" _
                      (Stays-on_store tip x (p.store.commit tx'') u₄ e₄))
                    λ _ u₅ e₅. e₅

  Stays-canonical_hash_at :
      (height : ℕ) (w : W) → tip w.src ≡ x → Stays tip x (canonical_hash_at p height w)
  unfolding canonical_hash_at
  Stays-canonical_hash_at height w e =
      Stays-bind tip x _ _ (Stays-fetch height height w e) λ batch u e'.
        elim (Option-cases (first batch.blocks)) [ inl n ↦ rw n e' | inr (b, s) ↦ rw s e' ]

  Stays-fork_round :
      (cursor height : ℕ) (canonical : String) (deeper : Exec W ℕ) (w : W)
      → tip w.src ≡ x
      → ((u : W) → tip u.src ≡ x → Stays tip x (deeper u))
      → Stays tip x (fork_round p cursor height canonical deeper w)
  unfolding fork_round
  Stays-fork_round cursor height canonical deeper w e k =
      elim (Bool-cases
        (not (p.config.max_reorg_depth == 0) && ltb p.config.max_reorg_depth (cursor - height))) [
          | inl b ↦ rw b e
          | inr b ↦ rw b (
              Stays-bind tip x _ _ (Stays-on_store tip x (p.store.hash_at height) w e) λ o u e'.
                elim (Option-cases o) [
                  | inl n ↦ rw n e'
                  | inr (hash, s) ↦ elim (Bool-cases (str_eq hash canonical)) [
                    | inl c ↦ rw (s, c) e'
                    | inr c ↦ rw (s, c) (k u e')
                  ]
                ])
        ]

  pub Stays-fork_loop :
      (cursor height : ℕ) (canonical : String) (w : W)
      → tip w.src ≡ x
      → Stays tip x (fork_loop p cursor height canonical w)
  unfolding fork_loop
  Stays-fork_loop cursor zero canonical w e = Stays-fork_round cursor 0 canonical _ w e λ u e'. e'
  Stays-fork_loop cursor (suc height) canonical w e =
      Stays-fork_round cursor (suc height) canonical _ w e λ u e'.
        Stays-bind tip x _ _ (Stays-canonical_hash_at height u e')
          λ hash u' e''. Stays-fork_loop cursor height hash u' e''
