-- ===== src/Processor/Reorg/TracksLaws.antt =====
-- What rolling back and advancing make of the rows that a store keeps.
use subdex.Prelude.{ℕ, zero, suc, ◌+◌, ◌≤◌, max, ◌≡◌, arith, subst}
use subdex.Core.Types.{Block}
use subdex.Core.Chain.{IsChain, segment}
use subdex.Core.StoreLaws.{Rows, advance, truncate, prune_below}
use subdex.Processor.Commit.Steps.{advance_all}
use subdex.Processor.Reorg.Fork.{Tracks}

module _ {Value : Type 0} (chain : ℕ → Block Value) where
  -- Rolled back to just below the first disagreement, the rows are the chain's alone.
  pub Tracks-truncate :
      (lo good hi f : ℕ) (r : Rows)
      → suc f ≡ good
      → Tracks chain lo good hi r
      → Tracks chain lo good good (truncate f r)
  Tracks-truncate lo good hi f r e t = record {
    lo_le = t.lo_le;
    good_le = omega arith;
    shared = λ n p q. ground (arith, t.shared n p q);
    stale = λ n p q. absurd (omega arith);
    below = λ n p. ground (arith, t.below n p);
    above = λ n p. ground arith;
  }

  module _ (is_chain : IsChain chain) (retention : ℕ) where
    Tracks-advance :
        (lo hi : ℕ) (r : Rows)
        → Tracks chain lo hi hi r
        → Tracks chain
            (max lo (prune_below retention hi))
            (suc hi)
            (suc hi)
            (advance retention (chain hi).id r)
    Tracks-advance lo hi r t = record {
      lo_le = ground (arith, t.lo_le);
      good_le = omega arith;
      shared = λ n p q. ground (arith, t.shared n, is_chain.numbered hi);
      stale = λ n p q. absurd (omega arith);
      below = λ n p. ground (arith, t.below n, t.lo_le, is_chain.numbered hi);
      above = λ n p. ground (arith, t.above n, is_chain.numbered hi);
    }

    -- After a segment that starts where the rows end, they are the chain's up to its last block, and
    -- what has gone from below is what the retention lets go.
    pub Tracks-advance_all :
        (count lo hi top : ℕ) (r : Rows)
        → hi + count ≤ suc top
        → Tracks chain lo hi hi r
        → (lo' : ℕ) × (lo' ≤ max lo (prune_below retention top))
          × Tracks chain lo'
              (hi + count)
              (hi + count)
              (advance_all retention (segment chain hi count) r)
    Tracks-advance_all zero lo hi top r le t =
        (lo, omega arith, subst (λ n. Tracks chain lo n n r) (omega arith) t)
    Tracks-advance_all (suc count) lo hi top r le t =
        let (lo', low, t') =
          Tracks-advance_all count _ (suc hi) top _ (omega arith) (Tracks-advance lo hi r t) in
        (
          lo',
          ground (arith, low),
          subst (λ n. Tracks chain lo' n n (advance_all retention (segment chain hi (suc count)) r))
              (omega arith) t',
        )
