-- ===== src/Processor/Run/Backfill.antt =====
-- `backfill` over a store that is up and a source that serves a chain reaches the head, and leaves
-- the chain's hashes.
use subdex.Prelude.{
  ℕ, zero, suc, ◌+◌, ◌-◌, ◌≤◌, ◌<◌, max, ◌≡◌, refl, ◌∙◌, sym, ap, subst, String, Option, none, some,
  All, last_or, leb, lt→leb, le→leb, ltb, ltb→lt, ltb→le, arith, inl, inr, Bool-cases, u32_max,
  saturating_add, saturating_add-eq, tests,
}
use subdex.Core.Error.{ok}
use subdex.Core.Types.{Block, Fits}
use subdex.Core.Chain.{IsChain, Serves, segment}
use subdex.Core.StoreLaws.{Rows, prune_below, View, IsStore, IsAvailable}
use subdex.Exec.{Exec}
use subdex.Exec.Runs.{Runs, Runs-pure, Runs-map, Runs-bind, Runs-ok, Runs-inspect}
use subdex.Processor.{Processor, World, report}
use subdex.Processor.Commit.Steps.{IsGood}
use subdex.Processor.Commit.Advances.{rows}
use subdex.Processor.Reorg.Fork.{Tracks, IsAllowed, Runs-on_source}
use subdex.Processor.Reorg.TracksLaws.{Tracks-advance_all}
use subdex.Processor.Reorg.Rewind.{process_batch_blocks_extends, process_batch_blocks_reorg}
use subdex.Processor.Run.{next_height, window_end, backfill_loop, backfill_round, backfill_batch}

module _ {Value : Type 0} (chain : ℕ → Block Value) where
  last-segment : (k from : ℕ) → last_or (chain from) (segment chain (suc from) k) ≡ chain (from + k)
  last-segment zero from = ap chain (omega arith)
  last-segment (suc k) from = last-segment k (suc from) ∙ ap chain (omega arith)

  -- The height after a segment.
  pub next-segment :
      IsChain chain
      → (from k : ℕ) → from + k < u32_max
      → next_height (last_or (chain from) (segment chain (suc from) k)) none ≡ from + suc k
  unfolding next_height
  next-segment c from k fits =
      rw (last-segment k from, c.numbered (from + k))
        (saturating_add-eq (from + k) 1 (omega arith) ∙ omega arith)

  -- A kept parent of the block where the rows end has the hash that the block names.
  pub parent-Tracks :
      IsChain chain
      → (lo hi : ℕ) (r : Rows) → Tracks chain lo hi hi r
      → 0 < (chain hi).id.number
      → (h : String) → r ((chain hi).id.number - 1) ≡ some h
      → h ≡ (chain hi).parent_hash
  parent-Tracks c lo zero r t pos h e = absurd (omega (arith, c.numbered 0))
  parent-Tracks c lo (suc d) r t pos h e =
      let at : (chain (suc d)).id.number - 1 ≡ d = omega (arith, c.numbered (suc d)) in
      let kept : r d ≡ some h = ap r (sym at) ∙ e in
      elim (Bool-cases (ltb d lo)) [
        | inl b ↦ cc (t.below d (ltb→lt d lo b), kept)
        | inr b ↦ cc (t.shared d (ltb→le d lo b) (omega arith), kept, c.linked d)
      ]

pub segment-Fits :
    {Value : Type 0} (chain : ℕ → Block Value)
    → IsChain chain
    → (count from : ℕ) → from + count ≤ suc u32_max
    → All Fits (segment chain from count)
segment-Fits chain c zero from le = tt
segment-Fits chain c (suc count) from le =
    (omega (arith, c.numbered from), segment-Fits chain c count (suc from) (omega arith))

-- The rows are the chain's up to the head, but for what the retention lets go, and end there.
pub record Synced {Value : Type 0} (chain : ℕ → Block Value) (retention lo head : ℕ) (r : Rows)
    : Type 0 where
  pub holds :
      (n : ℕ) → max lo (prune_below retention head) ≤ n → n ≤ head → r n ≡ some (chain n).id.hash
  pub ends : (n : ℕ) → head < n → r n ≡ none

module _ {Value : Type 0} (p : Processor Value) (v : View p.store) (retention : ℕ)
    (chain : ℕ → Block Value) (head : ℕ) where
  -- Over rows that are the chain's below `lo'`, for some `lo'` that is low enough.
  abbrev pub Clean : ℕ → ℕ → World p.store.Db p.source.Src → Type 0
  Clean lo hi u =
      (lo' : ℕ) × (lo' ≤ max lo (prune_below retention head)) × Tracks chain lo' hi hi (rows v u)

module _ {Value : Type 0} (p : Processor Value) (v : View p.store) (retention : ℕ)
    (L : IsStore p.store v retention) (up : IsAvailable p.store)
    (handlers : All (IsGood p.store v) p.handlers) (chain : ℕ → Block Value)
    (is_chain : IsChain chain) (head : ℕ) (serves : Serves p.source chain head)
    (small : head < u32_max) where
  abbrev W : Type 0
  W = Exec (World p.store.Db p.source.Src) (Option ℕ)

  window-fits : (next : ℕ) → next ≤ head → next ≤ window_end p next head
  unfolding saturating_add
  window-fits next le = omega (arith, small)

  -- A round below the head fetches a segment that starts at `next`, and hands it on.
  round_fetches :
      (next : ℕ) (again : ℕ → W) (w : World p.store.Db p.source.Src)
      {Q : Option ℕ → World p.store.Db p.source.Src → Type 0}
      → next ≤ head
      → ((k : ℕ) (u : World p.store.Db p.source.Src)
          → next + k ≤ head
          → u.db ≡ w.db
          → Runs (backfill_batch p next (segment chain next (suc k)) again u) Q)
      → Runs (backfill_round p next head again w) Q
  unfolding backfill_round
  round_fetches next again w le go =
      let (k, short, fetched) =
        serves.fetches next (window_end p next head) w.src (window-fits next le) (omega arith) in
      rw (le→leb next head le) (
        Runs-bind _ _
          (Runs-inspect (report "fetch") _
            (Runs-on_source (p.source.fetch_batch next (window_end p next head)) w fetched))
          λ batch u a. rw (a.0) (Runs-ok tt _ _ (go k _ (omega arith) (ap (λ x. x.db) a.1))))

  round_ends :
      (next : ℕ) (again : ℕ → W) (w : World p.store.Db p.source.Src)
      → head < next
      → backfill_round p next head again w ≡ (ok (some next), w)
  unfolding backfill_round
  round_ends next again w lt = rw (lt→leb next head lt)

  -- From rows that are the chain's and end at `hi`, the loop reaches the head.
  pub Clean-loop :
      (fuel lo hi : ℕ) (w : World p.store.Db p.source.Src)
      → suc head - hi < fuel
      → hi ≤ suc head
      → Tracks chain lo hi hi (rows v w)
      → Runs
          (backfill_loop p fuel hi head w)
          (λ o u. (o ≡ some (suc head)) × Clean p v retention chain head lo (suc head) u)
  unfolding backfill_loop backfill_batch
  Clean-loop zero lo hi w enough le t = absurd (omega arith)
  Clean-loop (suc fuel) lo hi w enough le t = elim (Bool-cases (leb hi head)) [
    | inr done ↦
        let e : hi ≡ suc head = omega tests in
        rw (round_ends hi (λ n. backfill_loop p fuel n head) w (omega tests)) (
          Runs-pure (some hi) w
            (ap some e, (lo, omega arith, subst (λ n. Tracks chain lo n n (rows v w)) e t)))
    | inl more ↦
        round_fetches hi (λ n. backfill_loop p fuel n head) w (omega tests)
          λ k u fits same.
            Runs-bind _ _
              (process_batch_blocks_extends p v retention L up handlers (chain hi)
                (segment chain (suc hi) k) u
                (segment-Fits chain is_chain (suc k) hi (omega (arith, small)))
                (parent-Tracks chain is_chain lo hi (rows v u)
                  (subst (λ d. Tracks chain lo hi hi (v.row (v.contents d))) (sym same) t)))
              λ o u' c.
                let (lo', low, t') =
                  Tracks-advance_all chain is_chain retention (suc k) lo hi head (rows v u)
                    (omega arith)
                    (subst (λ d. Tracks chain lo hi hi (v.row (v.contents d))) (sym same) t) in
                rw (c.0, next-segment chain is_chain hi k (omega (arith, small)))
                  (Runs-map
                    (Clean-loop fuel lo' (hi + suc k) u' (omega arith) (omega arith)
                      (subst (Tracks chain lo' (hi + suc k) (hi + suc k)) (sym c.1) t'))
                    λ x y z. (z.0, (z.1.0, omega (arith, low, z.1.1), z.1.2)))
  ]

  -- From rows that end at `hi` and disagree with the chain from `good` on, there is one reorg first.
  pub Tracks-loop :
      (fuel lo good d : ℕ) (w : World p.store.Db p.source.Src)
      → suc (suc head - good) < fuel
      → Tracks chain lo good (suc d) (rows v w)
      → 0 < good
      → good ≤ d
      → d < head
      → IsAllowed p.config.max_reorg_depth (d - (good - 1))
      → Runs
          (backfill_loop p fuel (suc d) head w)
          (λ o u. (o ≡ some (suc head)) × Clean p v retention chain head lo (suc head) u)
  unfolding backfill_loop backfill_batch next_height
  Tracks-loop zero lo good d w enough t pos le lt allowed = absurd (omega arith)
  Tracks-loop (suc fuel) lo good d w enough t pos le lt allowed =
      round_fetches (suc d) (λ n. backfill_loop p fuel n head) w lt
        λ k u fits same.
          Runs-bind _ _
            (process_batch_blocks_reorg p v retention L up chain is_chain head serves lo good
              (suc d) (v.contents u.db)
              (subst (λ x. Tracks chain lo good (suc d) (v.row (v.contents x))) (sym same) t) pos
              (subst (IsAllowed p.config.max_reorg_depth) (omega arith) allowed)
              (omega (arith, small)) d k u refl le (omega arith) (omega arith))
            λ o u' c. rw (c.0) (Clean-loop fuel lo good u' (omega arith) (omega arith) c.1)
