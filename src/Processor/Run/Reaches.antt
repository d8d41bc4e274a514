-- ===== src/Processor/Run/Reaches.antt =====
-- `backfill` from a store that has rows, and from an empty one.
use mathlib.Core.Path.{fun_ext}
use subdex.Prelude.{
  ℕ, suc, ◌-◌, ◌≤◌, ◌<◌, max, ◌≡◌, refl, ◌∙◌, sym, ap, subst, String, Option, none, some, All, leb,
  leb→le, ltb, ltb→lt, ltb→le, arith, inl, inr, Bool-cases, u32_max, saturating_add-eq, tests,
}
use subdex.Core.Error.{ok}
use subdex.Core.Types.{BlockId, Block}
use subdex.Core.Chain.{IsChain, Serves}
use subdex.Core.StoreLaws.{Rows, prune_below, View, IsStore, IsAvailable}
use subdex.Exec.Runs.{Runs, Runs-pure, Runs-map, Runs-bind, Runs-ok}
use subdex.Processor.{Processor, World, on_store}
use subdex.Processor.Commit.Steps.{IsGood, Runs-on_store}
use subdex.Processor.Commit.Advances.{rows}
use subdex.Processor.Reorg.Fork.{Tracks, IsAllowed, Runs-on_source, Reads}
use subdex.Processor.Reorg.Ancestor.{Runs-cursor}
use subdex.Processor.Run.{resume_height, backfill_loop, backfill}
use subdex.Processor.Run.Backfill.{Synced, Clean, Clean-loop, Tracks-loop}

module _ {Value : Type 0} (chain : ℕ → Block Value) where
  -- A kept height has a hash.
  kept-Tracks :
      (lo good d : ℕ) (r : Rows)
      → Tracks chain lo good (suc d) r
      → lo ≤ d
      → (h : String) × (r d ≡ some h)
  kept-Tracks lo good d r t le = elim (Bool-cases (ltb d good)) [
    | inl b ↦ ((chain d).id.hash, t.shared d le (ltb→lt d good b))
    | inr b ↦ let (x, e, _) = t.stale d (ltb→le d good b) (omega arith) in (x, e)
  ]

  Tracks-empty : (start : ℕ) (r : Rows) → ((n : ℕ) → r n ≡ none) → Tracks chain start start start r
  Tracks-empty start r h = record {
    lo_le = omega arith;
    good_le = omega arith;
    shared = λ n p q. absurd (omega arith);
    stale = λ n p q. absurd (omega arith);
    below = λ n _. h n;
    above = λ n _. h n;
  }

  Tracks-Synced :
      (retention lo lo' head : ℕ) (r : Rows)
      → lo' ≤ max lo (prune_below retention head)
      → Tracks chain lo' (suc head) (suc head) r
      → Synced chain retention lo head r
  Tracks-Synced retention lo lo' head r low t = record {
    holds = λ n p q. t.shared n (omega (arith, low, p)) (omega arith);
    ends = λ n p. t.above n p;
  }

module _ {Value : Type 0} (p : Processor Value) (v : View p.store) (retention : ℕ)
    (L : IsStore p.store v retention) (up : IsAvailable p.store) where
  resume_height-some :
      (d : ℕ) (w : World p.store.Db p.source.Src) {h : String}
      → d < u32_max
      → rows v w d ≡ some h
      → ((n : ℕ) → d < n → rows v w n ≡ none)
      → Runs (resume_height p w) (λ n u. (n ≡ suc d) × Reads p v w u)
  unfolding resume_height
  resume_height-some d w small top above =
      Runs-bind _ _ (Runs-cursor p v retention L up w d top above)
        λ c u a. rw (a.0) (Runs-pure _ u (saturating_add-eq d 1 (omega arith) ∙ omega arith, a.2))

  Runs-cursor_none :
      (w : World p.store.Db p.source.Src)
      → ((n : ℕ) → rows v w n ≡ none)
      → Runs (on_store p.store.cursor w) (λ c u. (c ≡ none) × Reads p v w u)
  Runs-cursor_none w empty =
      let (o, e) = up.cursor_answers w.db in
      Runs-map (Runs-on_store p.store.cursor w e) λ x u c. (
        c.0 ∙ known o e,
        (ap (λ y. v.contents y.db) c.1 ∙ L.cursor_keeps w.db, ap (λ y. y.seen) c.1),
      )
    where
      known : (o : Option BlockId) → (p.store.cursor w.db).0 ≡ ok o → o ≡ none
      known none e = refl
      known (some c) e = cc ((L.cursor_some w.db c e).0, empty c.number)

  resume_height-none :
      (w : World p.store.Db p.source.Src)
      → ((n : ℕ) → rows v w n ≡ none)
      → Runs (resume_height p w) (λ n u. (n ≡ p.config.start_height) × Reads p v w u)
  unfolding resume_height
  resume_height-none w empty =
      Runs-bind _ _ (Runs-cursor_none w empty) λ c u a. rw (a.0) (Runs-pure _ u (refl, a.1))

module _ {Value : Type 0} (p : Processor Value) (v : View p.store) (retention : ℕ)
    (chain : ℕ → Block Value) (head : ℕ) where
  -- What a backfill is to end in.
  abbrev pub Done : ℕ → Option ℕ → World p.store.Db p.source.Src → Type 0
  Done lo o u = (o ≡ some (suc head)) × Synced chain retention lo head (rows v u)

module _ {Value : Type 0} (p : Processor Value) (v : View p.store) (retention : ℕ)
    (L : IsStore p.store v retention) (up : IsAvailable p.store)
    (handlers : All (IsGood p.store v) p.handlers) (chain : ℕ → Block Value)
    (is_chain : IsChain chain) (head : ℕ) (serves : Serves p.source chain head)
    (small : head < u32_max) where
  -- From the resume height on: the head is asked for, the loop runs, and deferred work is finished.
  finish :
      (fuel lo next : ℕ) (w : World p.store.Db p.source.Src)
      → Runs (resume_height p w) (λ n u. (n ≡ next) × Reads p v w u)
      → ((u : World p.store.Db p.source.Src)
          → v.contents u.db ≡ v.contents w.db
          → Runs
              (backfill_loop p fuel next head u)
              (λ o u'. (o ≡ some (suc head)) × Clean p v retention chain head lo (suc head) u'))
      → Runs (backfill p fuel w) (Done p v retention chain head lo)
  unfolding backfill
  finish fuel lo next w resumes loops = Runs-bind _ _ resumes λ n u₁ a.
      Runs-bind _ _ (Runs-on_source p.source.finalized_head u₁ (serves.head_known u₁.src))
        λ top u₂ b.
          rw (a.0, b.0)
            (Runs-ok tt _ _ (
              Runs-bind _ _ (loops _ (ap (λ x. v.contents x.db) b.1 ∙ a.1.0)) λ o u₃ c. rw (c.0) (
                Runs-bind _ _
                  (Runs-on_store p.store.on_backfill_complete u₃ (up.backfilled_answers u₃.db))
                  λ _ u₄ e. Runs-pure _ u₄ (
                    refl,
                    subst (Synced chain retention lo head)
                        (sym (ap (rows v) e.1 ∙ fun_ext (L.backfilled_keeps u₃.db)))
                        (Tracks-Synced chain retention lo c.1.0 head (rows v u₃) c.1.1 c.1.2),
                  ))))

  -- A backfill of a store that keeps rows up to the height `d`, the chain's below `good` and others
  -- from there on, where at least one height is the chain's or there is room to go back below all of
  -- them, and `max_reorg_depth` allows it. If the head is not below `d`, and above it where rows
  -- disagree, then with one round of fuel for each height to index and two more it returns the
  -- height after the head, and the store holds the chain's hash at every height from the lowest one
  -- kept before up to the head, but for those that the retention prunes, and none above.
  pub backfill_resumes :
      (fuel lo good d : ℕ) (w : World p.store.Db p.source.Src)
      → Tracks chain lo good (suc d) (rows v w)
      → lo ≤ d
      → 0 < good
      → d ≤ head
      → (good ≤ d → d < head)
      → IsAllowed p.config.max_reorg_depth (d - (good - 1))
      → suc (suc head - good) < fuel
      → Runs (backfill p fuel w) (Done p v retention chain head lo)
  backfill_resumes fuel lo good d w t le pos below above allowed enough =
      let (h, kept) = kept-Tracks chain lo good d (rows v w) t le in
      finish fuel lo (suc d) w
        (resume_height-some p v retention L up d w (omega (arith, small)) kept
          (λ n past. t.above n past))
        λ u same.
          let t' : Tracks chain lo good (suc d) (rows v u) =
            subst (λ x. Tracks chain lo good (suc d) (v.row x)) (sym same) t in
          elim (Bool-cases (leb good d)) [
            | inl b ↦
                Tracks-loop p v retention L up handlers chain is_chain head serves small fuel lo
                  good d u enough t' pos (leb→le good d b) (above (leb→le good d b)) allowed
            | inr b ↦
                let e : good ≡ suc d = omega (tests, t.good_le) in
                Clean-loop p v retention L up handlers chain is_chain head serves small fuel lo
                  (suc d) u (omega arith) (omega arith)
                  (subst (λ n. Tracks chain lo n (suc d) (rows v u)) e t')
          ]

  -- A backfill of an empty store from `start_height`, at most the height after the head: with one
  -- round of fuel for each height and one more it returns the height after the head, and the store
  -- holds the chain's hash from `start_height` to the head, but for what the retention prunes, and
  -- none above.
  pub backfill_fresh :
      (fuel : ℕ) (w : World p.store.Db p.source.Src)
      → ((n : ℕ) → rows v w n ≡ none)
      → p.config.start_height ≤ suc head
      → suc head - p.config.start_height < fuel
      → Runs (backfill p fuel w) (Done p v retention chain head p.config.start_height)
  backfill_fresh fuel w empty le enough =
      finish fuel p.config.start_height p.config.start_height w
        (resume_height-none p v retention L up w empty)
        λ u same.
          Clean-loop p v retention L up handlers chain is_chain head serves small fuel
            p.config.start_height p.config.start_height u enough le
            (Tracks-empty chain p.config.start_height (rows v u)
              (λ n. ap (λ x. v.row x n) same ∙ empty n))
