-- ===== src/Processor/Run/Follows.antt =====
-- `follow` and `follow_until` over a source whose stream goes on where the rows end.
use subdex.Prelude.{
  ℕ, suc, ◌+◌, ◌-◌, ◌≤◌, ◌<◌, max, ◌≡◌, ◌∙◌, sym, ap, subst, Bool, some, List, All, arith,
}
use subdex.Core.Types.{Block}
use subdex.Core.Chain.{IsChain, segment}
use subdex.Core.StoreLaws.{Rows, prune_below, View, IsStore, IsAvailable}
use subdex.Exec.Runs.{Runs, Runs-pure, Runs-bind, Runs-ok}
use subdex.Processor.{Processor, World}
use subdex.Processor.Commit.Steps.{IsGood}
use subdex.Processor.Commit.Advances.{rows}
use subdex.Processor.Reorg.Fork.{Tracks}
use subdex.Processor.Reorg.TracksLaws.{Tracks-advance_all}
use subdex.Processor.Reorg.Rewind.{process_batch_blocks_extends}
use subdex.Processor.Run.{follow_batch, follow_loop, follow_until}
use subdex.Processor.Run.Streams.{
  Streams, stops, prune_below_mono, BatchKeeps, follow_until-Keeps, follow_loop-Keeps,
}
use subdex.Processor.Run.Backfill.{parent-Tracks, segment-Fits}

module _ {Value : Type 0} (retention : ℕ) (chain : ℕ → Block Value) where
  -- The rows are the chain's below `t`, but for what the retention lets go, and end there.
  abbrev pub Follows : ℕ → ℕ → Rows → Type 0
  Follows lo t r =
      (lo' : ℕ) × (lo' ≤ max lo (prune_below retention (t - 1))) × Tracks chain lo' t t r

module _ {Value : Type 0} (p : Processor Value) (v : View p.store) (retention : ℕ)
    (L : IsStore p.store v retention) (up : IsAvailable p.store)
    (handlers : All (IsGood p.store v) p.handlers) (chain : ℕ → Block Value)
    (is_chain : IsChain chain) (tip : p.source.Src → ℕ) (streams : Streams p.source chain tip)
    (lo : ℕ) where
  follow_batch-Follows : BatchKeeps p v chain tip streams (Follows retention chain lo)
  unfolding follow_batch
  follow_batch-Follows t k w at (lo', low, tracks) = Runs-ok tt _ _ (
      Runs-bind _ _
        (process_batch_blocks_extends p v retention L up handlers (chain t)
          (segment chain (suc t) k) _
          (segment-Fits chain is_chain (suc k) t (omega (arith, at, streams.fits w.src)))
          (parent-Tracks chain is_chain lo' t (rows v w) tracks))
        λ o u c.
          let (lo'', low', tracks') =
            Tracks-advance_all chain is_chain retention (suc k) lo' t (t + k) (rows v w)
              (omega arith) tracks in
          let here : tip u.src ≡ t + suc k = ap tip c.3 ∙ at in
          Runs-pure tt u (
            subst (λ n. Follows retention chain lo n (rows v u)) (sym here)
              (
                lo'',
                omega (
                  arith,
                  low,
                  low',
                  prune_below_mono retention (t - 1) (t + k) (omega arith),
                  ap (prune_below retention) {x = t + suc k - 1} {y = t + k} (omega arith),
                ),
                subst (Tracks chain lo'' (t + suc k) (t + suc k)) (sym c.1) tracks',
              )))

  -- Over a source that gives the chain's next blocks at each call, `follow_until` returns at the first wait
  -- that the shutdown ends, and goes on while none does. Whatever batches came before, the rows are
  -- then the chain's up to the stream's place, but for what the retention lets go. The store and the
  -- handlers do not fail, the rows end at the stream's place at the start, and heights fit in 32 bits.
  pub follow_until-Follows :
      (waits : List Bool) (w : World p.store.Db p.source.Src)
      → Follows retention chain lo (tip w.src) (rows v w)
      → Runs
          (follow_until p waits w)
          (λ o u. (o ≡ stops waits) × Follows retention chain lo (tip u.src) (rows v u))
  follow_until-Follows =
      follow_until-Keeps p v chain tip streams (Follows retention chain lo) follow_batch-Follows

  -- A bounded `follow` returns with a round of fuel more than its bound, and leaves the rows the chain's up
  -- to the stream's place.
  follow-Follows :
      (fuel most count : ℕ) (w : World p.store.Db p.source.Src)
      → most - count < fuel
      → Follows retention chain lo (tip w.src) (rows v w)
      → Runs
          (follow_loop p fuel (some most) count w)
          (λ o u. (o ≡ some tt) × Follows retention chain lo (tip u.src) (rows v u))
  follow-Follows =
      follow_loop-Keeps p v chain tip streams (Follows retention chain lo) follow_batch-Follows
