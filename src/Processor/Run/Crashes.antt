-- ===== src/Processor/Run/Crashes.antt =====
-- `backfill` where any call of the store, of the handlers and of the source may fail.
use mathlib.Core.Path.{fun_ext}
use subdex.Prelude.{
  ℕ, zero, suc, ◌+◌, ◌≤◌, ◌<◌, ◌≡◌, ◌⊎◌, refl, ◌∙◌, sym, ap, subst, Option, none, All, leb, leb→le,
  saturating_add, arith, inl, inr, Bool-cases, Option-cases, u32_max, saturating_add-eq,
}
use subdex.Core.Error.{ok}
use subdex.Core.Types.{Block, BlockBatch}
use subdex.Core.Chain.{IsChain, segment}
use subdex.Core.StoreLaws.{View, IsStore, Respects}
use subdex.Exec.{Exec, continue}
use subdex.Exec.Ends.{Ends, Ends-bind, Ends-map, Ends-inspect, Ends-state}
use subdex.Processor.{Processor, World, report}
use subdex.Processor.Commit.Steps.{advance_all}
use subdex.Processor.Commit.Advances.{rows}
use subdex.Processor.Commit.Partial.{Ends-on_store}
use subdex.Processor.Reorg.Fork.{Tracks}
use subdex.Processor.Reorg.Partial.{Ends-process_batch_blocks}
use subdex.Processor.Reorg.TracksLaws.{Tracks-advance_all}
use subdex.Processor.Run.{
  window_end, resume_height, backfill_batch, backfill_round, backfill_loop, backfill,
}
use subdex.Processor.Run.Backfill.{segment-Fits, parent-Tracks, next-segment}
use subdex.Processor.Run.Safe.{
  IsTruthful, IsSafe, Ends-on_source, Tracks-IsSafe, IsSafe-later, none-ends, some-ends,
}

module _ {Value : Type 0} (p : Processor Value) (v : View p.store) (retention : ℕ)
    (L : IsStore p.store v retention) (g : All (Respects p.store v) p.handlers)
    (chain : ℕ → Block Value) (is_chain : IsChain chain) (truth : IsTruthful p.source chain) where
  abbrev W : Type 0
  W = World p.store.Db p.source.Src

  abbrev Same : W → W → Type 0
  Same w u = v.contents u.db ≡ v.contents w.db

  abbrev Safe : ℕ → ℕ → W → Type 0
  Safe lo hi u = IsSafe chain retention lo hi (rows v u)

  Same-Safe : (lo hi : ℕ) (w u : W) → Tracks chain lo hi hi (rows v w) → Same w u → Safe lo hi u
  Same-Safe lo hi w u t same =
      Tracks-IsSafe chain retention lo hi (rows v u)
        (subst (λ C. Tracks chain lo hi hi (v.row C)) (sym same) t)

  -- The loop from the height where rows that are the chain's end.
  abbrev Goes : (ℕ → Exec W (Option ℕ)) → ℕ → Type 0
  Goes again hi =
      (lo : ℕ) (w : W)
      → Tracks chain lo hi hi (rows v w)
      → Ends (λ _. Safe lo hi) (Safe lo hi) (again hi w)

  -- A segment that is handed on where the rows end.
  Ends-backfill_batch :
      (again : ℕ → Exec W (Option ℕ)) (lo hi k : ℕ) (w : W)
      → hi + k ≤ u32_max
      → Tracks chain lo hi hi (rows v w)
      → Goes again (hi + k)
      → Ends (λ _. Safe lo hi) (Safe lo hi) (backfill_batch p hi (segment chain hi k) again w)
  unfolding backfill_batch Ends
  Ends-backfill_batch again lo hi zero w fits t go =
      Tracks-IsSafe chain retention lo hi (rows v w) t
  Ends-backfill_batch again lo hi (suc k) w fits t go =
      let Q : Option ℕ → W → Type 0 = λ o u.
        (o ≡ none) × (rows v u ≡ advance_all retention (segment chain hi (suc k)) (rows v w)) in
      Ends-bind (Safe lo hi) (λ _. Safe lo hi) Q _ _
        (Ends-map (Same w) (Safe lo hi) Q Q _
          (Ends-process_batch_blocks p v retention L g (chain hi) (segment chain (suc hi) k) w
            (segment-Fits chain is_chain (suc k) hi (omega arith))
            (parent-Tracks chain is_chain lo hi (rows v w) t))
          (λ _ _ c. c) (λ u same. Same-Safe lo hi w u t same))
        λ o u c.
          let (lo', low, t') =
            Tracks-advance_all chain is_chain retention (suc k) lo hi (hi + suc k) (rows v w)
              (omega arith) t in
          rw (c.0, next-segment chain is_chain hi k (omega arith))
            (Ends-map (Safe lo' (hi + suc k)) (Safe lo hi) (λ _. Safe lo' (hi + suc k))
              (λ _. Safe lo hi) _
              (go lo' u (subst (Tracks chain lo' (hi + suc k) (hi + suc k)) (sym c.1) t'))
              (λ _ x.
                IsSafe-later chain retention lo hi lo' (hi + suc k) (rows v x) (omega arith) low)
              (λ x.
                IsSafe-later chain retention lo hi lo' (hi + suc k) (rows v x) (omega arith) low))

  window-reaches : (hi head : ℕ) → hi ≤ head → head < u32_max → hi ≤ window_end p hi head
  unfolding saturating_add
  window-reaches hi head le small = omega arith

  Ends-backfill_round :
      (again : ℕ → Exec W (Option ℕ)) (head : ℕ)
      → head < u32_max
      → ((hi : ℕ) → Goes again hi)
      → (hi : ℕ) → Goes (λ n. backfill_round p n head again) hi
  unfolding backfill_round Ends continue
  Ends-backfill_round again head small go hi lo w t = elim (Bool-cases (leb hi head)) [
    | inr b ↦ rw b (Tracks-IsSafe chain retention lo hi (rows v w) t)
    | inl b ↦ rw b (
        let reaches = window-reaches hi head (leb→le hi head b) small in
        let R : BlockBatch Value → W → Type 0 = λ batch u.
          ((k : ℕ) × (hi + k ≤ suc (window_end p hi head))
            × (batch ≡ record { blocks = segment chain hi k }))
          × Same w u in
        Ends-bind (Safe lo hi) (λ _. Safe lo hi) R _ _
          (Ends-inspect (Safe lo hi) R (report "fetch") _
            (Ends-on_source (Safe lo hi) R (p.source.fetch_batch hi (window_end p hi head)) w
              (λ batch e.
                (truth.fetches_only hi (window_end p hi head) w.src batch reaches e, refl))
              (λ _ _. Tracks-IsSafe chain retention lo hi (rows v w) t))
            (λ e u s. s))
          λ batch u c.
            let (k, le, e) = c.0 in
            rw e (
              Ends-backfill_batch again lo hi k _ (omega arith)
                (subst (λ C. Tracks chain lo hi hi (v.row C)) (sym c.1) t) (go (hi + k))))
  ]

  Ends-backfill_loop :
      (fuel head : ℕ) → head < u32_max → (hi : ℕ) → Goes (λ n. backfill_loop p fuel n head) hi
  unfolding backfill_loop Ends
  Ends-backfill_loop zero head small hi lo w t = Tracks-IsSafe chain retention lo hi (rows v w) t
  Ends-backfill_loop (suc fuel) head small hi lo w t =
      Ends-backfill_round (λ n. backfill_loop p fuel n head) head small
        (Ends-backfill_loop fuel head small) hi lo w t

  -- Where the rows end, or where the configuration starts if there are none.
  Ends-resume_height :
      (lo hi : ℕ) (w : W)
      → Tracks chain lo hi hi (rows v w)
      → hi ≤ u32_max
      → (lo < hi) ⊎ (hi ≡ p.config.start_height)
      → Ends (λ n u. (n ≡ hi) × Same w u) (Same w) (resume_height p w)
  unfolding resume_height Ends
  Ends-resume_height lo hi w t fits from =
      Ends-bind (Same w) (λ n u. (n ≡ hi) × Same w u)
        (λ o u. ((p.store.cursor w.db).0 ≡ ok o) × Same w u) _ _
        (Ends-on_store (Same w) (λ o u. ((p.store.cursor w.db).0 ≡ ok o) × Same w u) p.store.cursor
          w (λ o e. (e, L.cursor_keeps w.db)) (λ _ _. L.cursor_keeps w.db))
        λ o u c. elim (Option-cases o) [
          | inl e ↦ rw e (
            none-ends chain retention lo hi p.config.start_height (rows v w) t from
                (L.cursor_none w.db (c.0 ∙ ap ok e)),
            c.1,
          )
          | inr (id, e) ↦
              let (kept, above) = L.cursor_some w.db id (c.0 ∙ ap ok e) in
              let ends = some-ends chain retention lo hi id.number (rows v w) t kept above in
              rw e (saturating_add-eq id.number 1 (omega arith) ∙ omega arith, c.1)
        ]

  -- Whatever call of the store, of the handlers or of the source fails in a `backfill`, and however
  -- little fuel it has: if the rows were the chain's without a gap before it, so they are after it.
  -- They end no lower than before, and what has gone from below is what the retention lets go. The
  -- rows before end at the `start_height` if there are none; the handlers leave them alone; and the
  -- source gives nothing but the chain's blocks.
  pub backfill-IsSafe :
      (fuel lo hi : ℕ) (w : World p.store.Db p.source.Src)
      → Tracks chain lo hi hi (rows v w)
      → hi ≤ u32_max
      → (lo < hi) ⊎ (hi ≡ p.config.start_height)
      → IsSafe chain retention lo hi (rows v (backfill p fuel w).1)
  unfolding backfill Ends continue
  backfill-IsSafe fuel lo hi w t fits from = Ends-state (Safe lo hi) _ (
      Ends-bind (Safe lo hi) (λ _. Safe lo hi) (λ n u. (n ≡ hi) × Same w u) _ _
        (Ends-map (Same w) (Safe lo hi) (λ n u. (n ≡ hi) × Same w u) (λ n u. (n ≡ hi) × Same w u) _
          (Ends-resume_height lo hi w t fits from) (λ _ _ c. c)
          (λ u same. Same-Safe lo hi w u t same))
        λ n u c.
          Ends-bind (Safe lo hi) (λ _. Safe lo hi) (λ head u'. (head < u32_max) × Same w u') _ _
            (Ends-on_source (Safe lo hi) (λ head u'. (head < u32_max) × Same w u')
              p.source.finalized_head u (λ head e. (truth.head_fits u.src head e, c.1))
              (λ _ _. Same-Safe lo hi w u t c.1))
            λ head u' c'. rw (c.0) (
              Ends-bind (Safe lo hi) (λ _. Safe lo hi) (λ _. Safe lo hi) _ _
                (Ends-backfill_loop fuel head c'.0 hi lo _
                  (subst (λ C. Tracks chain lo hi hi (v.row C)) (sym c'.1) t))
                λ o x s. elim (Option-cases o) [
                  | inl e ↦ rw e s
                  | inr (top, e) ↦ rw e (
                      Ends-bind (Safe lo hi) (λ _. Safe lo hi) (λ _. Safe lo hi) _ _
                        (Ends-on_store (Safe lo hi) (λ _. Safe lo hi) p.store.on_backfill_complete x
                          (λ _ _. completed lo hi x s) (λ _ _. completed lo hi x s))
                        λ _ y s'. s')
                ]))
    where
      completed :
          (lo hi : ℕ) (x : W)
          → Safe lo hi x
          → IsSafe chain retention lo hi (v.row (v.contents (p.store.on_backfill_complete x.db).1))
      completed lo hi x s =
          subst (IsSafe chain retention lo hi) (sym (fun_ext (L.backfilled_keeps x.db))) s
