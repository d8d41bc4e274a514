-- ===== src/Processor/Reorg/TooDeep.antt =====
-- A reorg that goes back further than `max_reorg_depth` is an error, and nothing is changed.
use subdex.Prelude.{
  ℕ, zero, suc, ◌+◌, ◌-◌, ◌≤◌, ◌<◌, ◌≡◌, ◌≢◌, refl, ◌∙◌, ap, String, true, false, ltb, ◌==◌, none,
  some, arith, inl, inr, Bool-cases, lt→ltb,
}
use subdex.Core.Error.{SubdexError}
use subdex.Core.Types.{Block}
use subdex.Core.Chain.{IsChain, Serves, segment}
use subdex.Core.StoreLaws.{View, IsStore, IsAvailable}
use subdex.Exec.{Exec, pure}
use subdex.Exec.Raises.{Raises, Raises-raise, Raises-map, Raises-first, Raises-then}
use subdex.Processor.{Processor, World}
use subdex.Processor.Reorg.{
  fork_round, fork_loop, find_fork_point, cursor_number, rewind, check_parent, process_batch_blocks,
}
use subdex.Processor.Reorg.Fork.{IsAllowed, Reads, Runs-hash_at, str_differs}
use subdex.Processor.Reorg.Rewind.{pred_suc}
use subdex.Processor.Reorg.Ancestor.{Runs-cursor, Runs-canonical_hash_at}

abbrev pub TooDeep : {Value : Type 0} → Processor Value → SubdexError
TooDeep p = SubdexError.reorg_too_deep (suc p.config.max_reorg_depth) p.config.max_reorg_depth

module _ {Value : Type 0} (p : Processor Value) (v : View p.store) (chain : ℕ → Block Value) where
  -- The rows end at `top`, and in the window below it that `max_reorg_depth` allows, each height up to
  -- `d` has another hash than the chain.
  pub record IsLost (d top : ℕ) (C : v.Contents) : Type 0 where
    pub bounded : 0 < p.config.max_reorg_depth
    pub deep : p.config.max_reorg_depth < top
    pub inside : top ≤ p.config.max_reorg_depth + d
    pub below_top : d ≤ top
    pub stale :
        (n : ℕ)
        → top - p.config.max_reorg_depth ≤ n
        → n ≤ d
        → (x : String) × (v.row C n ≡ some x) × (x ≢ (chain n).id.hash)
    pub last : (x : String) × (v.row C top ≡ some x)
    pub above : (n : ℕ) → top < n → v.row C n ≡ none

module _ {Value : Type 0} (p : Processor Value) (v : View p.store) (retention : ℕ)
    (L : IsStore p.store v retention) (up : IsAvailable p.store) (chain : ℕ → Block Value)
    (is_chain : IsChain chain) (head : ℕ) (serves : Serves p.source chain head) where
  abbrev W : Type 0
  W = World p.store.Db p.source.Src

  module _ (d top : ℕ) (C : v.Contents) (lost : IsLost p v chain d top C) where
    -- One height below the window.
    round_deep :
        (h : ℕ) (canonical : String) (deeper : Exec W ℕ) (w : W)
        → h + suc p.config.max_reorg_depth ≡ top
        → Raises (TooDeep p) (Reads p v w) (fork_round p top h canonical deeper w)
    unfolding fork_round
    round_deep h canonical deeper w e =
        let depth : top - h ≡ suc p.config.max_reorg_depth = omega arith in
        let some_bound : (p.config.max_reorg_depth == 0) ≡ false = ground (arith, lost.bounded) in
        let over : ltb p.config.max_reorg_depth (suc p.config.max_reorg_depth) ≡ true =
          lt→ltb _ _ (omega arith) in
        rw (depth, some_bound, over) (Raises-raise w (refl, refl))

    -- Inside the window the walk goes on.
    round_on :
        (h : ℕ) (deeper : Exec W ℕ) (w : W)
        → v.contents w.db ≡ C
        → top ≤ p.config.max_reorg_depth + h
        → h ≤ d
        → ((u : W) → Reads p v w u → Raises (TooDeep p) (Reads p v u) (deeper u))
        → Raises (TooDeep p) (Reads p v w) (fork_round p top h (chain h).id.hash deeper w)
    unfolding fork_round
    round_on h deeper w same inside le k =
        let (x, kept, differs) = lost.stale h (omega arith) le in
        let allowed : IsAllowed p.config.max_reorg_depth (top - h) = ground arith in
        rw allowed (
          Raises-then _ _ (Runs-hash_at p v retention L up h w) λ o u c.
            rw (c.0 ∙ ap (λ y. v.row y h) same ∙ kept, str_differs differs)
              (Raises-map (k u c.2) λ u' e. (e.0 ∙ c.2.0, e.1 ∙ c.2.1)))

    fork_loop-TooDeep :
        (h : ℕ) (w : W)
        → v.contents w.db ≡ C
        → top ≤ suc p.config.max_reorg_depth + h
        → h ≤ d
        → h ≤ head
        → Raises (TooDeep p) (Reads p v w) (fork_loop p top h (chain h).id.hash w)
    unfolding fork_loop
    fork_loop-TooDeep zero w same inside le known =
        round_deep 0 (chain 0).id.hash (pure 0) w (omega (arith, lost.deep))
    fork_loop-TooDeep (suc h) w same inside le known =
        elim (Bool-cases (ltb (suc h + p.config.max_reorg_depth) top)) [
          | inl b ↦ round_deep (suc h) (chain (suc h)).id.hash _ w (ground arith)
          | inr b ↦ round_on (suc h) _ w same (ground arith) le λ u c.
              Raises-then _ _
                (Runs-canonical_hash_at p v retention L up chain head serves h u (omega arith))
                λ y u' e. rw (e.0) (
                  Raises-map
                    (fork_loop-TooDeep h u' (e.1.0 ∙ c.0 ∙ same) (ground arith) (omega arith)
                      (omega arith))
                    λ u'' f. (f.0 ∙ e.1.0, f.1 ∙ e.1.1))
        ]

    find_fork_point-TooDeep :
        (w : W)
        → v.contents w.db ≡ C
        → d ≤ head
        → Raises (TooDeep p) (Reads p v w) (find_fork_point p d (chain d).id.hash w)
    unfolding find_fork_point
    find_fork_point-TooDeep w same known =
        let (x, kept) = lost.last in
        Raises-then _ _
          (Runs-cursor p v retention L up w top (ap (λ c. v.row c top) same ∙ kept)
            (λ n past. ap (λ c. v.row c n) same ∙ lost.above n past))
          λ c u k. rw (k.0) (
            unfold cursor_number in
            Raises-map
              (fork_loop-TooDeep d u (k.2.0 ∙ same) (omega (arith, lost.inside)) (omega arith)
                known)
              λ u' e. (e.0 ∙ k.2.0, e.1 ∙ k.2.1))

    rewind-TooDeep :
        (w : W)
        → v.contents w.db ≡ C
        → d ≤ head
        → Raises (TooDeep p) (Reads p v w) (rewind p d (chain d).id.hash w)
    unfolding rewind
    rewind-TooDeep w same known = Raises-first _ _ (find_fork_point-TooDeep w same known)

    check_parent-TooDeep :
        (w : W)
        → v.contents w.db ≡ C
        → d ≤ head
        → Raises (TooDeep p) (Reads p v w) (check_parent p (chain (suc d)) w)
    unfolding check_parent
    check_parent-TooDeep w same known =
        let (x, kept, differs) = lost.stale d (omega (arith, lost.inside)) (omega arith) in
        let number : (chain (suc d)).id.number ≡ suc d = is_chain.numbered (suc d) in
        rw (number, lt→ltb 0 (suc d) (omega arith), pred_suc d)
          (Raises-then _ _ (Runs-hash_at p v retention L up d w) λ o u c.
            rw
              (
                c.0 ∙ ap (λ y. v.row y d) same ∙ kept,
                is_chain.linked d,
                str_differs differs,
                pred_suc d,
              )
              (Raises-map (rewind-TooDeep u (c.2.0 ∙ same) known)
                λ u' e. (e.0 ∙ c.2.0, e.1 ∙ c.2.1)))

    -- Where the rows that `max_reorg_depth` lets the engine drop all disagree with the chain, a batch whose
    -- first block's parent is one of them ends in the error ReorgTooDeep with a depth of one more than
    -- allowed. Nothing is committed or rolled back, and the observer is told nothing.
    pub process_batch_blocks-TooDeep :
        (k : ℕ) (w : W)
        → v.contents w.db ≡ C
        → d ≤ head
        → Raises
            (TooDeep p)
            (Reads p v w)
            (process_batch_blocks p (segment chain (suc d) (suc k)) w)
    unfolding process_batch_blocks
    process_batch_blocks-TooDeep k w same known =
        Raises-first _ _ (check_parent-TooDeep w same known)
