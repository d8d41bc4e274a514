-- ===== src/Processor/Commit/Advances.antt =====
-- Commits over a store that is up, and handlers that do not fail.
use mathlib.Core.Path.{ap₂}
use mathlib.Core.List.{append-nil}
use subdex.Prelude.{ℕ, ◌≡◌, refl, ◌∙◌, sym, ap, List, [], ◌∷◌, ◌++◌, All, length, last_or}
use subdex.Core.Error.{ok}
use subdex.Core.Types.{Block, Fits}
use subdex.Core.Traits.{Store, Observation, on_batch_committed}
use subdex.Core.StoreLaws.{Rows, View, IsStore, IsAvailable}
use subdex.Exec.Runs.{Runs, Runs-pure, Runs-map, Runs-inspect, Runs-bind}
use subdex.Processor.{Processor, World, report}
use subdex.Processor.Commit.{commit_block, commit_batch, event_count, prepare_all}
use subdex.Processor.Commit.Steps.{
  IsGood, Belong, prepare_all_lem, advance_all, Runs-on_store, Runs-write_all, Runs-process_all,
  Runs-set_cursor, Runs-set_cursors,
}

-- The rows that are committed in a world.
abbrev pub rows :
    {Value : Type 0} {S : Store Value} (v : View S) {Src : Type 0} → World S.Db Src → Rows
rows v w = v.row (v.contents w.db)

-- What the observer is told of a committed batch.
abbrev pub batch_told : {Value : Type 0} → Block Value → List (Block Value) → List Observation
batch_told b bs =
    on_batch_committed (last_or b bs).id.number (length (b ∷ bs)) (event_count (b ∷ bs)) ∷ []

-- What a step does to the world, apart from the source, which it leaves alone.
pub record Moves {Value : Type 0} {S : Store Value} (v : View S) {Src : Type 0}
    (change : Rows → Rows) (told : List Observation) (w u : World S.Db Src) : Type 0 where
  pub rows_change : rows v u ≡ change (rows v w)
  pub src_same : u.src ≡ w.src
  pub seen_grows : u.seen ≡ w.seen ++ told

module _ {Value : Type 0} (p : Processor Value) (v : View p.store) (retention : ℕ)
    (L : IsStore p.store v retention) (up : IsAvailable p.store)
    (good : All (IsGood p.store v) p.handlers) where
  prepared :
      (bs : List (Block Value)) (w : World p.store.Db p.source.Src)
      → Runs
          (prepare_all p.store p.handlers bs, w)
          (λ os u. (u ≡ w) × Belong p.store v bs p.handlers os)
  prepared bs w =
      let (os, e, b) = prepare_all_lem p.store v p.handlers bs good in
      record { value = os; state = w; eq = λ i. (e i, w); post = (refl, b) }

  -- The world after a transaction that was opened at `w`, changed the rows by `f` and is committed.
  settled :
      (w u u' : World p.store.Db p.source.Src) {tx tx₀ tx' : p.store.Tx} (f : Rows → Rows)
      → (p.store.begin w.db).0 ≡ ok tx₀
      → tx ≡ tx₀
      → u ≡ record w { db = (p.store.begin w.db).1 }
      → v.row (v.pending u.db tx') ≡ f (v.row (v.pending u.db tx))
      → u' ≡ record u { db = (p.store.commit tx' u.db).1 }
      → (rows v u' ≡ f (rows v w)) × (u'.src ≡ w.src) × (u'.seen ≡ w.seen)
  settled w u u' {tx} {tx₀} {tx'} f opened t d c e = (
    ap (rows v) e
        ∙ ap v.row (L.commit_applies tx' u.db (up.commit_answers tx' u.db))
        ∙ c
        ∙ ap (λ x. f (v.row x))
            (ap₂ v.pending (ap (λ x. x.db) d) t ∙ L.begin_opens w.db tx₀ opened),
    ap (λ x. x.src) e ∙ ap (λ x. x.src) d,
    ap (λ x. x.seen) e ∙ ap (λ x. x.seen) d,
  )

  -- `commit_batch` of a batch that is not empty succeeds. The rows are as after advancing to each of
  -- its blocks in order, the source is left alone, and the observer is told of one committed batch,
  -- with its last height and its numbers of blocks and events.
  pub commit_batch_lem :
      (b : Block Value) (bs : List (Block Value)) (w : World p.store.Db p.source.Src)
      → All Fits (b ∷ bs)
      → Runs
          (commit_batch p (b ∷ bs) w)
          (λ _ u. Moves v (advance_all retention (b ∷ bs)) (batch_told b bs) w u)
  unfolding commit_batch
  commit_batch_lem b bs w fits =
      Runs-bind _ _ (Runs-inspect (report "prepare") _ (prepared (b ∷ bs) w)) λ os u₁ h₁.
        let (tx₀, opened) = up.begin_answers u₁.db in
        Runs-bind _ _ (Runs-on_store p.store.begin u₁ opened) λ tx₁ u₂ h₂.
          Runs-bind _ _ (Runs-write_all p.store v p.handlers os (b ∷ bs) tx₁ u₂ good h₁.1)
            λ tx₂ u₃ h₃.
              Runs-bind _ _ (Runs-set_cursors p.store v retention L up (b ∷ bs) tx₂ u₃ fits)
                λ tx₃ u₄ h₄.
                  Runs-bind _ _
                    (Runs-inspect (report "commit") _
                      (Runs-on_store (p.store.commit tx₃) u₄ (up.commit_answers tx₃ u₄.db)))
                    λ _ u₅ h₅.
                      let done =
                        settled u₁ u₄ u₅ (advance_all retention (b ∷ bs)) opened h₂.0
                          (h₄.0 ∙ h₃.0 ∙ h₂.1)
                          (h₄.1 u₄.db ∙ ap (advance_all retention (b ∷ bs)) (h₃.1 u₄.db)) h₅.1 in
                      Runs-pure tt _ (record {
                        rows_change =
                            done.0 ∙ ap (λ x. advance_all retention (b ∷ bs) (rows v x)) h₁.0;
                        src_same = done.1 ∙ ap (λ x. x.src) h₁.0;
                        seen_grows =
                            ap (λ x. x ++ batch_told b bs) (done.2 ∙ ap (λ x. x.seen) h₁.0);
                      })

  -- `commit_block` succeeds, and the rows are as after advancing to its block.
  commit_block_lem :
      (b : Block Value) (w : World p.store.Db p.source.Src)
      → Fits b
      → Runs (commit_block p b w) (λ _ u. Moves v (advance_all retention (b ∷ [])) [] w u)
  unfolding commit_block
  commit_block_lem b w fit =
      let (tx₀, opened) = up.begin_answers w.db in
      Runs-bind _ _ (Runs-on_store p.store.begin w opened) λ tx₁ u₂ h₂.
        Runs-bind _ _ (Runs-process_all p.store v p.handlers b tx₁ u₂ good) λ tx₂ u₃ h₃.
          Runs-bind _ _ (Runs-set_cursor p.store v retention L up b tx₂ u₃ fit) λ tx₃ u₄ h₄.
            Runs-map (Runs-on_store (p.store.commit tx₃) u₄ (up.commit_answers tx₃ u₄.db))
              λ _ u₅ h₅.
                let done =
                  settled w u₄ u₅ (advance_all retention (b ∷ [])) opened h₂.0 (h₄.0 ∙ h₃.0 ∙ h₂.1)
                    (h₄.1 u₄.db ∙ ap (advance_all retention (b ∷ [])) (h₃.1 u₄.db)) h₅.1 in
                record {
                  rows_change = done.0;
                  src_same = done.1;
                  seen_grows = done.2 ∙ sym (append-nil w.seen);
                }
