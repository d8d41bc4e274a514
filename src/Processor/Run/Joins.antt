-- ===== src/Processor/Run/Joins.antt =====
-- A backfill to the head and the stream after it: which heights the rows have, wherever the stream
-- starts.
use subdex.Prelude.{
  ℕ, zero, suc, ◌+◌, ◌-◌, ◌≤◌, ◌<◌, max, ◌≡◌, ◌∙◌, sym, ap, subst, Bool, none, some, List, All,
  arith, String, inl, inr, Bool-cases, ltb, ltb→lt, ltb→le,
}
use subdex.Core.Types.{Block}
use subdex.Core.Chain.{IsChain, segment}
use subdex.Core.StoreLaws.{Rows, advance, prune_below, View, IsStore, IsAvailable}
use subdex.Exec.Runs.{Runs, Runs-pure, Runs-bind, Runs-ok}
use subdex.Processor.{Processor, World}
use subdex.Processor.Commit.Steps.{IsGood, advance_all}
use subdex.Processor.Commit.Advances.{rows}
use subdex.Processor.Reorg.Rewind.{process_batch_blocks_extends}
use subdex.Processor.Run.{follow_batch, follow_until}
use subdex.Processor.Run.Backfill.{Synced, segment-Fits}
use subdex.Processor.Run.Streams.{Streams, stops, BatchKeeps, follow_until-Keeps}

-- From `low` on, the rows are the chain's below `hi` and on `[start, top)`, and there are no others
-- from `hi` on.
pub record Joins {Value : Type 0} (chain : ℕ → Block Value) (low hi start top : ℕ) (r : Rows)
    : Type 0 where
  pub backfilled : (n : ℕ) → low ≤ n → n < hi → r n ≡ some (chain n).id.hash
  pub streamed : (n : ℕ) → low ≤ n → start ≤ n → n < top → r n ≡ some (chain n).id.hash
  pub between : (n : ℕ) → hi ≤ n → n < start → r n ≡ none
  pub above : (n : ℕ) → hi ≤ n → top ≤ n → r n ≡ none

module _ {Value : Type 0} (chain : ℕ → Block Value) (is_chain : IsChain chain) (retention : ℕ) where
  Joins-advance :
      (low hi start top : ℕ) (r : Rows)
      → start ≤ top
      → Joins chain low hi start top r
      → Joins chain
          (max low (prune_below retention top))
          hi
          start
          (suc top)
          (advance retention (chain top).id r)
  Joins-advance low hi start top r le j = record {
    backfilled = λ n p q. ground (arith, j.backfilled n, is_chain.numbered top);
    streamed = λ n p q s. ground (arith, j.streamed n, is_chain.numbered top);
    between = λ n p q. ground (arith, j.between n, is_chain.numbered top);
    above = λ n p q. ground (arith, j.above n, is_chain.numbered top);
  }

  Joins-advance_all :
      (count low hi start top last : ℕ) (r : Rows)
      → start ≤ top
      → top + count ≤ suc last
      → Joins chain low hi start top r
      → (low' : ℕ) × (low' ≤ max low (prune_below retention last))
        × Joins chain low' hi start
            (top + count)
            (advance_all retention (segment chain top count) r)
  Joins-advance_all zero low hi start top last r le end j =
      (low, omega arith, subst (λ n. Joins chain low hi start n r) (omega arith) j)
  Joins-advance_all (suc count) low hi start top last r le end j =
      let (low', bound, j') =
        Joins-advance_all count _ hi start (suc top) last _ (omega arith) (omega arith)
          (Joins-advance low hi start top r le j) in
      (
        low',
        ground (arith, bound),
        subst
            (λ n.
              Joins chain low' hi start n (advance_all retention (segment chain top (suc count)) r))
            (omega arith) j',
      )

  -- The parent of the block at `top` is kept with the hash that the block names, or not at all.
  parent-Joins :
      (low hi start top : ℕ) (r : Rows)
      → Joins chain low hi start top r
      → low < top
      → (h : String) → r ((chain top).id.number - 1) ≡ some h
      → h ≡ (chain top).parent_hash
  parent-Joins low hi start zero r j below h e = absurd (omega arith)
  parent-Joins low hi start (suc d) r j below h e =
      let at : (chain (suc d)).id.number - 1 ≡ d = omega (arith, is_chain.numbered (suc d)) in
      let kept : r d ≡ some h = ap r (sym at) ∙ e in
      elim (Bool-cases (ltb d hi)) [
        | inl b ↦ cc (j.backfilled d (omega arith) (ltb→lt d hi b), kept, is_chain.linked d)
        | inr b ↦ elim (Bool-cases (ltb d start)) [
          | inl c ↦ absurd (cc (j.between d (ltb→le d hi b) (ltb→lt d start c), kept))
          | inr c ↦
              cc (
                j.streamed d (omega arith) (ltb→le d start c) (omega arith),
                kept,
                is_chain.linked d,
              )
        ]
      ]

module _ {Value : Type 0} (chain : ℕ → Block Value) (retention head lo start : ℕ) where
  -- With all that the retention has not let go, over a stream that has gone from `start` to `t`.
  abbrev pub Joined : ℕ → Rows → Type 0
  Joined t r =
      (low : ℕ) × (low ≤ max lo (prune_below retention (max head (t - 1))))
      × (start ≤ t)
      × Joins chain low (suc head) start t r

  Synced-Joined : (r : Rows) → Synced chain retention lo head r → Joined start r
  Synced-Joined r s = (
    max lo (prune_below retention head),
    ground arith,
    omega arith,
    record {
      backfilled = λ n p q. s.holds n p (omega arith);
      streamed = λ n p q u. absurd (omega arith);
      between = λ n p q. s.ends n (omega arith);
      above = λ n p q. s.ends n (omega arith);
    },
  )

module _ {Value : Type 0} (p : Processor Value) (v : View p.store) (retention : ℕ)
    (L : IsStore p.store v retention) (up : IsAvailable p.store)
    (handlers : All (IsGood p.store v) p.handlers) (chain : ℕ → Block Value)
    (is_chain : IsChain chain) (tip : p.source.Src → ℕ) (streams : Streams p.source chain tip)
    (head lo start : ℕ) (later : max lo (prune_below retention head) < start) where
  follow_batch-Joined : BatchKeeps p v chain tip streams (Joined chain retention head lo start)
  unfolding follow_batch
  follow_batch-Joined t k w at (low, bound, le, j) = Runs-ok tt _ _ (
      Runs-bind _ _
        (process_batch_blocks_extends p v retention L up handlers (chain t)
          (segment chain (suc t) k) _
          (segment-Fits chain is_chain (suc k) t (omega (arith, at, streams.fits w.src)))
          (λ _.
            parent-Joins chain is_chain retention low (suc head) start t (rows v w) j
              (ground (arith, bound, later, le))))
        λ o u c.
          let (low', bound', j') =
            Joins-advance_all chain is_chain retention (suc k) low (suc head) start t (t + k)
              (rows v w) le (omega arith) j in
          let here : tip u.src ≡ t + suc k = ap tip c.3 ∙ at in
          Runs-pure tt u (
            subst (λ n. Joined chain retention head lo start n (rows v u)) (sym here)
              (
                low',
                ground (arith, bound, bound'),
                omega (arith, le),
                subst (Joins chain low' (suc head) start (t + suc k)) (sym c.1) j',
              )))

  pub follow_until-Joined :
      (waits : List Bool) (w : World p.store.Db p.source.Src)
      → Synced chain retention lo head (rows v w)
      → tip w.src ≡ start
      → Runs
          (follow_until p waits w)
          (λ o u. (o ≡ stops waits) × Joined chain retention head lo start (tip u.src) (rows v u))
  follow_until-Joined waits w synced at =
      follow_until-Keeps p v chain tip streams (Joined chain retention head lo start)
        follow_batch-Joined waits w
        (subst (λ n. Joined chain retention head lo start n (rows v w)) (sym at)
          (Synced-Joined chain retention head lo start (rows v w) synced))
