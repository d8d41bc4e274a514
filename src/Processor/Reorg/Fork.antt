-- ===== src/Processor/Reorg/Fork.antt =====
-- `find_fork_point` over a store that is up and a source that serves a chain.
use subdex.Prelude.{
  ℕ, ◌-◌, ◌≤◌, ◌<◌, ◌≡◌, refl, ◌∙◌, ap, ◌≢◌, String, false, not, ◌&&◌, none, some, ltb, ◌==◌,
  str_eq, eq_iff, arith,
}
use subdex.Core.Error.{ok}
use subdex.Core.Types.{Block}
use subdex.Core.StoreLaws.{Rows, View, IsStore, IsAvailable}
use subdex.Exec.{Exec}
use subdex.Exec.Runs.{Runs, Runs-pure, Runs-map, Runs-bind}
use subdex.Processor.{Processor, World, on_store, on_source}
use subdex.Processor.Commit.Steps.{Runs-on_store}
use subdex.Processor.Commit.Advances.{rows}
use subdex.Processor.Reorg.{fork_round}

-- The rows hold the heights `[lo, hi)`: the chain's hashes below `good`, others from there on.
pub record Tracks {Value : Type 0} (chain : ℕ → Block Value) (lo good hi : ℕ) (r : Rows)
    : Type 0 where
  pub lo_le : lo ≤ good
  pub good_le : good ≤ hi
  pub shared : (n : ℕ) → lo ≤ n → n < good → r n ≡ some (chain n).id.hash
  pub stale : (n : ℕ) → good ≤ n → n < hi → (x : String) × (r n ≡ some x) × (x ≢ (chain n).id.hash)
  pub below : (n : ℕ) → n < lo → r n ≡ none
  pub above : (n : ℕ) → hi ≤ n → r n ≡ none

pub str_differs : {x y : String} → x ≢ y → str_eq x y ≡ false
str_differs {x} {y} ne = ground (arith, eq_iff x y)

-- `max_reorg_depth` allows the cursor to go back by `depth`.
abbrev pub IsAllowed : ℕ → ℕ → Type 0
IsAllowed most depth = (not (most == 0) && ltb most depth) ≡ false

module _ {Value : Type 0} (p : Processor Value) (v : View p.store) where
  -- What is committed, and what was observed, stay.
  abbrev pub Reads : World p.store.Db p.source.Src → World p.store.Db p.source.Src → Type 0
  Reads w u = (v.contents u.db ≡ v.contents w.db) × (u.seen ≡ w.seen)

pub Runs-on_source :
    {Db Src A : Type 0} (m : Exec Src A) (w : World Db Src) {a : A}
    → (m w.src).0 ≡ ok a
    → Runs (on_source m w) (λ x u. (x ≡ a) × (u ≡ record w { src = (m w.src).1 }))
unfolding on_source
Runs-on_source m w {a} h = record {
  value = a;
  state = record w { src = (m w.src).1 };
  eq = λ i. (h i, record w { src = (m w.src).1 });
  post = (refl, refl);
}

module _ {Value : Type 0} (p : Processor Value) (v : View p.store) (retention : ℕ)
    (L : IsStore p.store v retention) (up : IsAvailable p.store) where
  abbrev pub W : Type 0
  W = World p.store.Db p.source.Src

  pub Runs-hash_at :
      (h : ℕ) (w : World p.store.Db p.source.Src)
      → Runs
          (on_store (p.store.hash_at h) w)
          (λ o u. (o ≡ rows v w h) × (u.src ≡ w.src) × Reads p v w u)
  Runs-hash_at h w =
      let (o, e) = up.hash_at_answers h w.db in
      Runs-map (Runs-on_store (p.store.hash_at h) w e) λ x u c. (
        c.0 ∙ L.hash_at_reads h w.db o e,
        ap (λ y. y.src) c.1,
        (ap (λ y. v.contents y.db) c.1 ∙ L.hash_at_keeps h w.db, ap (λ y. y.seen) c.1),
      )

  module _ (cursor h : ℕ) (canonical : String) (deeper : Exec W ℕ) (w : W) (Q : ℕ → W → Type 0)
      (allowed : IsAllowed p.config.max_reorg_depth (cursor - h)) where
    -- The three ways through a round.
    pub round_absent :
        rows v w h ≡ none
        → ((u : W) → Reads p v w u → Q h u)
        → Runs (fork_round p cursor h canonical deeper w) Q
    unfolding fork_round
    round_absent e k =
        rw allowed
          (Runs-bind _ _ (Runs-hash_at h w) λ o u c. rw (c.0 ∙ e) (Runs-pure h u (k u c.2)))

    pub round_agrees :
        rows v w h ≡ some canonical
        → ((u : W) → Reads p v w u → Q h u)
        → Runs (fork_round p cursor h canonical deeper w) Q
    unfolding fork_round
    round_agrees e k = rw allowed (
        Runs-bind _ _ (Runs-hash_at h w)
          λ o u c. rw (c.0 ∙ e, (eq_iff canonical canonical).1 refl) (Runs-pure h u (k u c.2)))

    pub round_differs :
        {x : String}
        → rows v w h ≡ some x
        → x ≢ canonical
        → ((u : W) → Reads p v w u → Runs (deeper u) Q)
        → Runs (fork_round p cursor h canonical deeper w) Q
    unfolding fork_round
    round_differs {x} e ne k =
        rw allowed
          (Runs-bind _ _ (Runs-hash_at h w) λ o u c. rw (c.0 ∙ e, str_differs ne) (k u c.2))
