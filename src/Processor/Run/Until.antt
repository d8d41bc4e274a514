-- ===== src/Processor/Run/Until.antt =====
-- `run_until`: start-up, the backfill, and the stream after it.
use subdex.Prelude.{
  ℕ, suc, ◌-◌, ◌≤◌, ◌<◌, max, ◌≡◌, refl, ◌∙◌, sym, ap, subst, Bool, Option, none, some, List, [],
  ◌∷◌, All, u32_max,
}
use subdex.Core.Error.{ok}
use subdex.Core.Types.{Block}
use subdex.Core.Traits.{Store, Handler}
use subdex.Core.Chain.{IsChain, Serves}
use subdex.Core.StoreLaws.{prune_below, View, IsStore, IsAvailable}
use subdex.Exec.{Exec}
use subdex.Exec.Runs.{Runs, Runs-pure, Runs-map, Runs-bind}
use subdex.Processor.{Processor, World}
use subdex.Processor.Commit.Steps.{IsGood, Runs-on_store}
use subdex.Processor.Commit.Advances.{rows}
use subdex.Processor.Reorg.Fork.{Tracks, IsAllowed}
use subdex.Processor.Run.{init_all, init, backfill, run_until}
use subdex.Processor.Run.Streams.{Streams, stops}
use subdex.Processor.Run.Reaches.{Done, backfill_fresh, backfill_resumes}
use subdex.Processor.Run.Joins.{Joined, follow_until-Joined}
use subdex.Processor.Run.Waits.{Waits}
use subdex.Processor.Run.Waits.Loop.{Stays-backfill}

module _ {Value : Type 0} (S : Store Value) (v : View S) where
  -- An `init` that succeeds and keeps the framework's own rows.
  abbrev pub Begins : Exec S.Db (Unit {0}) → Type 0
  Begins m =
      (db : S.Db) → ((m db).0 ≡ ok tt) × (v.row (v.contents (m db).1) ≡ v.row (v.contents db))

  pub record IsReady (hs : List (Handler S)) : Type 0 where
    pub store_begins : Begins S.init
    pub handlers_begin : All (λ h. Begins h.init) hs

module _ {Value : Type 0} (p : Processor Value) (v : View p.store)
    (ready : IsReady p.store v p.handlers) where
  abbrev W : Type 0
  W = World p.store.Db p.source.Src

  abbrev Kept : W → W → Type 0
  Kept w u = (rows v u ≡ rows v w) × (u.src ≡ w.src)

  Runs-init_all :
      (hs : List (Handler p.store)) (w : W)
      → All (λ h. Begins p.store v h.init) hs
      → Runs (init_all p hs w) (λ _ u. Kept w u)
  unfolding init_all
  Runs-init_all [] w b = Runs-pure tt w (refl, refl)
  Runs-init_all (h ∷ hs) w (b, bs) = Runs-bind _ _ (Runs-on_store h.init w (b w.db).0) λ _ u c.
      Runs-map (Runs-init_all hs u bs)
        λ _ u' k. (k.0 ∙ ap (rows v) c.1 ∙ (b w.db).1, k.1 ∙ ap (λ x. x.src) c.1)

  Runs-init : (w : W) → Runs (init p w) (λ _ u. Kept w u)
  unfolding init
  Runs-init w = Runs-bind _ _ (Runs-on_store p.store.init w (ready.store_begins w.db).0) λ _ u c.
      Runs-map (Runs-init_all p.handlers u ready.handlers_begin)
        λ _ u' k. (k.0 ∙ ap (rows v) c.1 ∙ (ready.store_begins w.db).1, k.1 ∙ ap (λ x. x.src) c.1)

module _ {Value : Type 0} (p : Processor Value) (v : View p.store) (retention : ℕ)
    (chain : ℕ → Block Value) (head : ℕ) (tip : p.source.Src → ℕ) where
  -- How a run ends that is to follow from the height `start`.
  abbrev pub Followed : ℕ → ℕ → List Bool → Option Bool → World p.store.Db p.source.Src → Type 0
  Followed lo start shutdown o u =
      (o ≡ some (stops shutdown)) × Joined chain retention head lo start (tip u.src) (rows v u)

module _ {Value : Type 0} (p : Processor Value) (v : View p.store) (retention : ℕ)
    (L : IsStore p.store v retention) (up : IsAvailable p.store)
    (handlers : All (IsGood p.store v) p.handlers) (ready : IsReady p.store v p.handlers)
    (chain : ℕ → Block Value) (is_chain : IsChain chain) (head : ℕ)
    (serves : Serves p.source chain head) (small : head < u32_max) (tip : p.source.Src → ℕ)
    (streams : Streams p.source chain tip) (waits : Waits p.source tip) where
  Runs-run_until :
      (fuel lo : ℕ) (shutdown : List Bool) (w : World p.store.Db p.source.Src)
      → max lo (prune_below retention head) < tip w.src
      → ((u : World p.store.Db p.source.Src)
          → rows v u ≡ rows v w
          → Runs (backfill p fuel u) (Done p v retention chain head lo))
      → Runs
          (run_until p fuel shutdown w)
          (Followed p v retention chain head tip lo (tip w.src) shutdown)
  unfolding run_until
  Runs-run_until fuel lo shutdown w later backfills = Runs-bind _ _ (Runs-init p v ready w) λ _ u c.
      let done = backfills u c.0 in
      let stayed : tip done.state.src ≡ tip w.src =
        sym (ap (λ r. tip r.1.src) (done.eq))
        ∙ Stays-backfill p tip waits (tip w.src) fuel u (ap tip c.1) in
      Runs-bind {P = λ o u'. Done p v retention chain head lo o u' × (tip u'.src ≡ tip w.src)} _ _
        (record {
          value = done.value;
          state = done.state;
          eq = done.eq;
          post = (done.post, stayed);
        })
        λ o u' d. rw (d.0.0) (
          Runs-bind _ _
            (follow_until-Joined p v retention L up handlers chain is_chain tip streams head lo
              (tip w.src) later shutdown u' d.0.1 d.1)
            λ stopped u'' f. Runs-pure (some stopped) u'' (ap some f.0, f.1))

  -- A run over an empty store, from a `start_height` at most one above the head, with one round of fuel
  -- for each height and one more, and over a stream that is above `start_height` and above what the
  -- retention lets go at the head. It starts up, backfills to the head, and follows the stream from
  -- the place where it is; it returns at the first wait that the shutdown ends, and goes on while none
  -- does. The rows then have the chain's hash, but for what the retention lets go, from `start_height`
  -- to the head and from the stream's first height to its last, and no others above the head: heights
  -- between the head and the stream's first one have no row. No call fails, the source serves one
  -- chain, and heights fit in 32 bits.
  pub run_until_fresh :
      (fuel : ℕ) (shutdown : List Bool) (w : World p.store.Db p.source.Src)
      → ((n : ℕ) → rows v w n ≡ none)
      → p.config.start_height ≤ suc head
      → suc head - p.config.start_height < fuel
      → max p.config.start_height (prune_below retention head) < tip w.src
      → Runs
          (run_until p fuel shutdown w)
          (Followed p v retention chain head tip p.config.start_height (tip w.src) shutdown)
  run_until_fresh fuel shutdown w empty le enough later =
      Runs-run_until fuel p.config.start_height shutdown w later λ u same.
        backfill_fresh p v retention L up handlers chain is_chain head serves small fuel u
          (λ n. ap (λ r. r n) same ∙ empty n) le enough

  -- The same of a run over rows up to the height `d`, the chain's below `good` and others from there
  -- on, as `backfill_resumes` asks for them and with its fuel: the rows then have the chain's hash from
  -- the lowest row, in place of `start_height`.
  pub run_until_resumes :
      (fuel lo good d : ℕ) (shutdown : List Bool) (w : World p.store.Db p.source.Src)
      → Tracks chain lo good (suc d) (rows v w)
      → lo ≤ d
      → 0 < good
      → d ≤ head
      → (good ≤ d → d < head)
      → IsAllowed p.config.max_reorg_depth (d - (good - 1))
      → suc (suc head - good) < fuel
      → max lo (prune_below retention head) < tip w.src
      → Runs
          (run_until p fuel shutdown w)
          (Followed p v retention chain head tip lo (tip w.src) shutdown)
  run_until_resumes fuel lo good d shutdown w t le pos below above allowed enough later =
      Runs-run_until fuel lo shutdown w later λ u same.
        backfill_resumes p v retention L up handlers chain is_chain head serves small fuel lo good d
          u (subst (Tracks chain lo good (suc d)) (sym same) t) le pos below above allowed enough
