-- ===== src/Processor/Reorg/Rewind.antt =====
-- `process_batch_blocks` on its branches: the commit of a batch, and the roll back.
use mathlib.Core.Path.{fun_ext}
use subdex.Prelude.{
  subst, ℕ, suc, ◌-◌, ◌≤◌, ◌<◌, ◌≡◌, refl, ◌∙◌, sym, ap, String, Option, none, some, List, [], ◌∷◌,
  ◌++◌, All, ltb, arith, inl, inr, Bool-cases, Option-cases, eq_iff, u32_max, saturating_add-eq,
  lt→ltb, ltb→lt,
}
use subdex.Core.Types.{BlockId, Block, Fits}
use subdex.Core.Traits.{Observation, on_reorg}
use subdex.Core.Chain.{IsChain, Serves, segment}
use subdex.Core.StoreLaws.{truncate, View, IsStore, IsAvailable}
use subdex.Exec.Runs.{Runs, Runs-pure, Runs-map, Runs-bind, Runs-ok}
use subdex.Processor.{Processor, World, on_store}
use subdex.Processor.Commit.Steps.{IsGood, Runs-on_store, advance_all}
use subdex.Processor.Commit.Advances.{rows, batch_told, commit_batch_lem}
use subdex.Processor.Reorg.{rewind_depth, rewind, check_parent, process_batch_blocks}
use subdex.Processor.Reorg.Fork.{Tracks, IsAllowed, Reads, Runs-hash_at, str_differs}
use subdex.Processor.Reorg.TracksLaws.{Tracks-truncate}
use subdex.Processor.Reorg.Ancestor.{Runs-cursor, find_fork_point_lem}

-- What the observer is told of a reorg: the fork, and how many blocks were rolled back.
abbrev pub reorg_told : ℕ → ℕ → List Observation
reorg_told good hi = on_reorg (good - 1) (hi - good) ∷ []

pub pred_suc : (n : ℕ) → suc n - 1 ≡ n
pred_suc n = omega arith

module _ {Value : Type 0} (p : Processor Value) (v : View p.store) (chain : ℕ → Block Value)
    (lo good hi : ℕ) where
  -- The world after a reorg that is detected at the height `hi` or below it.
  abbrev pub Rewound :
      World p.store.Db p.source.Src → Option ℕ → World p.store.Db p.source.Src → Type 0
  Rewound w o u =
      (o ≡ some good)
      × Tracks chain lo good good (rows v u)
      × (u.seen ≡ w.seen ++ reorg_told good hi)

module _ {Value : Type 0} (p : Processor Value) (v : View p.store) (retention : ℕ)
    (L : IsStore p.store v retention) (up : IsAvailable p.store) where
  Runs-rollback_to :
      (f : ℕ) (w : World p.store.Db p.source.Src)
      → f < u32_max
      → Runs
          (on_store (p.store.rollback_to f) w)
          (λ _ u. ((n : ℕ) → rows v u n ≡ truncate f (rows v w) n) × (u.seen ≡ w.seen))
  Runs-rollback_to f w below =
      Runs-map (Runs-on_store (p.store.rollback_to f) w (up.rollback_answers f w.db)) λ _ u c. (
        λ n.
            ap (λ y. rows v y n) c.1
            ∙ L.rollback_applies f w.db below (up.rollback_answers f w.db) n,
        ap (λ y. y.seen) c.1,
      )

  -- A parent that is not kept, or is kept with the hash that the block names, is no reorg.
  check_parent-none :
      (b : Block Value) (w : World p.store.Db p.source.Src)
      → (0 < b.id.number → (h : String) → rows v w (b.id.number - 1) ≡ some h → h ≡ b.parent_hash)
      → Runs (check_parent p b w) (λ o u. (o ≡ none) × (u.src ≡ w.src) × Reads p v w u)
  unfolding check_parent
  check_parent-none b w h = elim (Bool-cases (ltb 0 b.id.number)) [
    | inr z ↦ rw z (Runs-pure none w (refl, refl, (refl, refl)))
    | inl z ↦ rw z (
        Runs-bind _ _ (Runs-hash_at p v retention L up (b.id.number - 1) w) λ o u c.
          elim (Option-cases o) [
            | inl e ↦ rw e (Runs-pure none u (refl, c.1, c.2))
            | inr (x, e) ↦
                rw (e, (eq_iff x b.parent_hash).1 (h (ltb→lt _ _ z) x (sym c.0 ∙ e)))
                  (Runs-pure none u (refl, c.1, c.2))
          ])
  ]

module _ {Value : Type 0} (p : Processor Value) (v : View p.store) (retention : ℕ)
    (L : IsStore p.store v retention) (up : IsAvailable p.store)
    (good : All (IsGood p.store v) p.handlers) where
  -- A batch whose first block's parent is not kept, or is kept with the hash that the block names, is
  -- committed whole, and the source is left alone.
  pub process_batch_blocks_extends :
      (b : Block Value) (bs : List (Block Value)) (w : World p.store.Db p.source.Src)
      → All Fits (b ∷ bs)
      → (0 < b.id.number → (h : String) → rows v w (b.id.number - 1) ≡ some h → h ≡ b.parent_hash)
      → Runs (process_batch_blocks p (b ∷ bs) w) (λ o u.
        (o ≡ none)
        × (rows v u ≡ advance_all retention (b ∷ bs) (rows v w))
        × (u.seen ≡ w.seen ++ batch_told b bs)
        × (u.src ≡ w.src))
  unfolding process_batch_blocks
  process_batch_blocks_extends b bs w fits h =
      Runs-bind _ _ (check_parent-none p v retention L up b w h) λ o u c. rw (c.0) (
        Runs-bind _ _ (commit_batch_lem p v retention L up good b bs u fits) λ _ u' m.
          Runs-pure none u' (
            refl,
            m.rows_change ∙ ap (λ x. advance_all retention (b ∷ bs) (v.row x)) c.2.0,
            m.seen_grows ∙ ap (λ s. s ++ batch_told b bs) c.2.1,
            m.src_same ∙ c.1,
          ))

module _ {Value : Type 0} (p : Processor Value) (v : View p.store) (retention : ℕ)
    (L : IsStore p.store v retention) (up : IsAvailable p.store) (chain : ℕ → Block Value)
    (is_chain : IsChain chain) (head : ℕ) (serves : Serves p.source chain head) (lo good hi : ℕ)
    (C : v.Contents) (t : Tracks chain lo good hi (v.row C)) (pos : 0 < good)
    (allowed : IsAllowed p.config.max_reorg_depth (hi - 1 - (good - 1)))
    (small : good ≤ u32_max) where
  rewind_lem :
      (d : ℕ) (w : World p.store.Db p.source.Src)
      → v.contents w.db ≡ C
      → good ≤ d
      → d < hi
      → d ≤ head
      → Runs (rewind p d (chain d).id.hash w) (Rewound p v chain lo good hi w)
  unfolding rewind
  rewind_lem d w same le lt known =
      let (x, kept, _) = t.stale (hi - 1) (omega arith) (omega arith) in
      Runs-bind _ _
        (find_fork_point_lem p v retention L up chain head serves lo good hi C t pos allowed d w
          same le lt known)
        λ f u₁ a.
          Runs-bind _ _
            (Runs-cursor p v retention L up u₁ (hi - 1)
              (ap (λ c. v.row c (hi - 1)) (a.1.0 ∙ same) ∙ kept)
              (λ n past. ap (λ c. v.row c n) (a.1.0 ∙ same) ∙ t.above n (omega arith)))
            λ c u₂ b.
              Runs-bind _ _ (Runs-rollback_to p v retention L up f u₂ (omega arith)) λ _ u₃ e.
                Runs-ok tt _ _ (
                  Runs-pure _ _ (
                    ap some (saturating_add-eq f 1 (omega arith) ∙ omega arith),
                    subst (Tracks chain lo good good) (sym (fun_ext e.0)) (
                        Tracks-truncate chain lo good hi f (rows v u₂) a.0 (
                          subst (λ x. Tracks chain lo good hi (v.row x))
                            (sym (b.2.0 ∙ a.1.0 ∙ same)) t)),
                    told c f a.0 b.0 (e.1 ∙ b.2.1 ∙ a.1.1),
                  ))
    where
      told :
          (c : Option BlockId) (f : ℕ) {h : String}
          → suc f ≡ good
          → c ≡ some (record { number = hi - 1; hash = h })
          → {s : List Observation} → s ≡ w.seen
          → s ++ (on_reorg f (rewind_depth c f) ∷ [])
            ≡ w.seen ++ (on_reorg (good - 1) (hi - good) ∷ [])
      told c f e k q =
          let e' : f ≡ good - 1 = omega arith in
          rw (k, q, e')
            (unfold rewind_depth in ap (λ n. w.seen ++ (on_reorg (good - 1) n ∷ [])) (omega arith))

  -- The reorg check at the block above `d` finds the reorg.
  check_parent-some :
      (d : ℕ) (w : World p.store.Db p.source.Src)
      → v.contents w.db ≡ C
      → good ≤ d
      → d < hi
      → d ≤ head
      → Runs (check_parent p (chain (suc d)) w) (Rewound p v chain lo good hi w)
  unfolding check_parent
  check_parent-some d w same le lt known =
      let (x, kept, differs) = t.stale d le lt in
      let number : (chain (suc d)).id.number ≡ suc d = is_chain.numbered (suc d) in
      rw (number, lt→ltb 0 (suc d) (omega arith), pred_suc d)
        (Runs-bind _ _ (Runs-hash_at p v retention L up d w) λ o u c.
          rw
            (
              c.0 ∙ ap (λ y. v.row y d) same ∙ kept,
              is_chain.linked d,
              str_differs differs,
              pred_suc d,
            )
            (Runs-map (rewind_lem d u (c.2.0 ∙ same) le lt known)
              λ o' u' e. (e.0, e.1, e.2 ∙ ap (λ s. s ++ reorg_told good hi) c.2.1)))

  -- Where the kept rows are the chain's below `good`, which is positive, and others from there up to
  -- the highest, `max_reorg_depth` allows going back that far, no call of the store fails, the source
  -- serves one chain, and heights fit in 32 bits: given a batch of the chain that starts just above
  -- the highest row, the engine commits nothing of it. It rolls back once, to just below the first row that disagrees with the
  -- chain: every row that is left is the chain's, and all the chain's rows are left. It asks for a
  -- refetch from the first height rolled back, and tells the observer the fork and the depth.
  pub process_batch_blocks_reorg :
      (d k : ℕ) (w : World p.store.Db p.source.Src)
      → v.contents w.db ≡ C
      → good ≤ d
      → d < hi
      → d ≤ head
      → Runs
          (process_batch_blocks p (segment chain (suc d) (suc k)) w)
          (Rewound p v chain lo good hi w)
  unfolding process_batch_blocks
  process_batch_blocks_reorg d k w same le lt known =
      Runs-bind _ _ (check_parent-some d w same le lt known)
        λ o u e. rw (e.0) (Runs-pure (some good) u (refl, e.1, e.2))
