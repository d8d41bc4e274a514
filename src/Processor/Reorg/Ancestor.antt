-- ===== src/Processor/Reorg/Ancestor.antt =====
-- The walk of `find_fork_point` ends at the highest common ancestor, or one below what is kept.
use subdex.Prelude.{
  ℕ, zero, suc, ◌-◌, ◌≤◌, ◌<◌, ◌≡◌, refl, ◌∙◌, sym, ap, String, Option, none, some, ltb, arith, inl,
  inr, Bool-cases, ltb→lt, ltb→le, tests,
}
use subdex.Core.Error.{ok}
use subdex.Core.Types.{BlockId, Block}
use subdex.Core.Chain.{Serves}
use subdex.Core.StoreLaws.{View, IsStore, IsAvailable}
use subdex.Exec.{Exec, pure}
use subdex.Exec.Runs.{Runs, Runs-pure, Runs-map, Runs-bind}
use subdex.Processor.{Processor, World, on_store}
use subdex.Processor.Commit.Steps.{Runs-on_store}
use subdex.Processor.Commit.Advances.{rows}
use subdex.Processor.Reorg.{
  canonical_hash_at, fork_round, fork_loop, find_fork_point, cursor_number,
}
use subdex.Processor.Reorg.Fork.{
  Tracks, IsAllowed, Runs-on_source, Reads, round_absent, round_agrees, round_differs,
}

IsAllowed-mono : (most a b : ℕ) → a ≤ b → IsAllowed most b → IsAllowed most a
IsAllowed-mono most a b h k = ground arith

module _ {Value : Type 0} (p : Processor Value) (v : View p.store) (retention : ℕ)
    (L : IsStore p.store v retention) (up : IsAvailable p.store) where
  -- The cursor is the last height kept.
  pub Runs-cursor :
      (w : World p.store.Db p.source.Src) (hi : ℕ) {h : String}
      → rows v w hi ≡ some h
      → ((n : ℕ) → hi < n → rows v w n ≡ none)
      → Runs
          (on_store p.store.cursor w)
          (λ c u. (c ≡ some (record { number = hi; hash = h })) × (u.src ≡ w.src) × Reads p v w u)
  Runs-cursor w hi {h} top above =
      let (o, e) = up.cursor_answers w.db in
      Runs-map (Runs-on_store p.store.cursor w e) λ x u c. (
        c.0 ∙ known o e,
        ap (λ y. y.src) c.1,
        (ap (λ y. v.contents y.db) c.1 ∙ L.cursor_keeps w.db, ap (λ y. y.seen) c.1),
      )
    where
      known :
          (o : Option BlockId)
          → (p.store.cursor w.db).0 ≡ ok o
          → o ≡ some (record { number = hi; hash = h })
      known none e = cc (L.cursor_none w.db e hi, top)
      known (some c) e =
          let (kept, past) = L.cursor_some w.db c e in
          let same : c.number ≡ hi = ground (arith, kept, top, above c.number, past hi) in
          cc (same, kept, top)

module _ {Value : Type 0} (p : Processor Value) (v : View p.store) (retention : ℕ)
    (L : IsStore p.store v retention) (up : IsAvailable p.store) (chain : ℕ → Block Value)
    (head : ℕ) (serves : Serves p.source chain head) where
  pub Runs-canonical_hash_at :
      (h : ℕ) (w : World p.store.Db p.source.Src)
      → h ≤ head
      → Runs (canonical_hash_at p h w) (λ x u. (x ≡ (chain h).id.hash) × Reads p v w u)
  unfolding canonical_hash_at
  Runs-canonical_hash_at h w le =
      let (k, _, e) = serves.fetches h h w.src (omega arith) le in
      Runs-bind _ _ (Runs-on_source (p.source.fetch_batch h h) w e) λ batch u c.
        rw (c.0) (Runs-pure _ u (refl, (ap (λ y. v.contents y.db) c.1, ap (λ y. y.seen) c.1)))

  module _ (lo good hi : ℕ) (C : v.Contents) (t : Tracks chain lo good hi (v.row C))
      (pos : 0 < good) (allowed : IsAllowed p.config.max_reorg_depth (hi - 1 - (good - 1))) where
    IsAllowed-at : (h : ℕ) → good ≤ suc h → IsAllowed p.config.max_reorg_depth (hi - 1 - h)
    IsAllowed-at h le =
        IsAllowed-mono p.config.max_reorg_depth (hi - 1 - h) (hi - 1 - (good - 1)) (omega arith)
          allowed

    -- The ancestor is reached where the row agrees, or where there is none.
    at_ancestor :
        (h : ℕ) (deeper : Exec (World p.store.Db p.source.Src) ℕ)
        (w : World p.store.Db p.source.Src)
        → v.contents w.db ≡ C
        → good ≡ suc h
        → Runs
            (fork_round p (hi - 1) h (chain h).id.hash deeper w)
            (λ f u. (suc f ≡ good) × Reads p v w u)
    at_ancestor h deeper w same e = elim (Bool-cases (ltb h lo)) [
      | inl b ↦
          round_absent p v retention L up (hi - 1) h (chain h).id.hash deeper w _
            (IsAllowed-at h (omega arith)) (ap (λ c. v.row c h) same ∙ t.below h (ltb→lt h lo b))
            (λ u c. (sym e, c))
      | inr b ↦
          round_agrees p v retention L up (hi - 1) h (chain h).id.hash deeper w _
            (IsAllowed-at h (omega arith))
            (ap (λ c. v.row c h) same ∙ t.shared h (ltb→le h lo b) (omega arith))
            (λ u c. (sym e, c))
    ]

    pub fork_loop_lem :
        (h : ℕ) (w : World p.store.Db p.source.Src)
        → v.contents w.db ≡ C
        → good ≤ suc h
        → h < hi
        → h ≤ head
        → Runs (fork_loop p (hi - 1) h (chain h).id.hash w) (λ f u. (suc f ≡ good) × Reads p v w u)
    unfolding fork_loop
    fork_loop_lem zero w same le lt known = at_ancestor 0 (pure 0) w same (omega arith)
    fork_loop_lem (suc h) w same le lt known = elim (Bool-cases (ltb good (suc (suc h)))) [
      | inr b ↦ at_ancestor (suc h) _ w same (omega tests)
      | inl b ↦
          let (x, kept, differs) = t.stale (suc h) (omega tests) lt in
          round_differs p v retention L up (hi - 1) (suc h) (chain (suc h)).id.hash _ w _
            (IsAllowed-at (suc h) le) (ap (λ c. v.row c (suc h)) same ∙ kept) differs
            λ u c. Runs-bind _ _ (Runs-canonical_hash_at h u (omega arith)) λ y u' d. rw (d.0) (
              Runs-map
                (fork_loop_lem h u' (d.1.0 ∙ c.0 ∙ same) (omega tests) (omega arith) (omega arith))
                λ f u'' e. (e.0, (e.1.0 ∙ d.1.0 ∙ c.0, e.1.1 ∙ d.1.1 ∙ c.1)))
    ]

    -- Where the rows above the ancestor all disagree with the source's chain, `find_fork_point`,
    -- called at a kept height that disagrees, with the chain's hash there, succeeds. It gives the
    -- height just below the first disagreement, and changes neither what is committed nor what was
    -- observed.
    pub find_fork_point_lem :
        (d : ℕ) (w : World p.store.Db p.source.Src)
        → v.contents w.db ≡ C
        → good ≤ d
        → d < hi
        → d ≤ head
        → Runs (find_fork_point p d (chain d).id.hash w) (λ f u. (suc f ≡ good) × Reads p v w u)
    unfolding find_fork_point
    find_fork_point_lem d w same le lt known =
        let (x, kept, _) = t.stale (hi - 1) (omega arith) (omega arith) in
        Runs-bind _ _
          (Runs-cursor p v retention L up w (hi - 1) (ap (λ c. v.row c (hi - 1)) same ∙ kept)
            (λ n past. ap (λ c. v.row c n) same ∙ t.above n (omega arith)))
          λ c u k. rw (k.0) (
            unfold cursor_number in
            Runs-map (fork_loop_lem d u (k.2.0 ∙ same) (omega arith) lt known)
              λ f u' e. (e.0, (e.1.0 ∙ k.2.0, e.1.1 ∙ k.2.1)))
