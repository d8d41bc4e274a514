-- ===== src/Processor/Run/Streams.antt =====
-- What `follow` and `follow_until` keep over a source whose stream gives the chain's next blocks.
use subdex.Prelude.{
  ℕ, zero, suc, ◌+◌, ◌-◌, ◌≤◌, ◌<◌, ◌≡◌, refl, ◌∙◌, sym, ap, subst, Bool, true, false, some, List,
  [], ◌∷◌, leb, arith, inl, inr, Bool-cases, u32_max,
}
use subdex.Core.Error.{ok}
use subdex.Core.Types.{Block}
use subdex.Core.Traits.{DataSource}
use subdex.Core.Chain.{segment}
use subdex.Core.StoreLaws.{Rows, prune_below, View}
use subdex.Exec.{Exec, continue}
use subdex.Exec.Runs.{Runs, Runs-pure, Runs-bind}
use subdex.Processor.{Processor, World, on_source}
use subdex.Processor.Commit.Advances.{rows}
use subdex.Processor.Reorg.Fork.{Runs-on_source}
use subdex.Processor.Run.{bound_hit, follow_batch, follow_loop, follow_until}

pub prune_below_mono : (r a b : ℕ) → a ≤ b → prune_below r a ≤ prune_below r b
prune_below_mono r a b le = ground arith

-- Whether one of the waits is ended by the shutdown.
abbrev pub stops : List Bool → Bool
stops [] = false
stops (true ∷ waits) = true
stops (false ∷ waits) = stops waits

module _ {Value : Type 0} (D : DataSource Value) (chain : ℕ → Block Value) where
  -- Each call gives the chain's next blocks, perhaps none; `tip` is the height it goes on with.
  pub record Streams (tip : D.Src → ℕ) : Type 0 where
    pub fits : (s : D.Src) → tip s ≤ suc u32_max
    pub gives :
        (s : D.Src)
        → (k : ℕ) × ((D.next_finalized s).0 ≡ ok (record { blocks = segment chain (tip s) k }))
          × (tip (D.next_finalized s).1 ≡ tip s + k)

module _ {Value : Type 0} (p : Processor Value) (v : View p.store) (chain : ℕ → Block Value)
    (tip : p.source.Src → ℕ) (streams : Streams p.source chain tip) (Inv : ℕ → Rows → Type 0) where
  abbrev W : Type 0
  W = World p.store.Db p.source.Src

  -- `Inv` of the stream's place and the rows.
  abbrev pub Keeps : W → Type 0
  Keeps w = Inv (tip w.src) (rows v w)

  -- A batch that goes on at the stream's place keeps it.
  abbrev pub BatchKeeps : Type 0
  BatchKeeps =
      (t k : ℕ) (w : W)
      → tip w.src ≡ t + suc k
      → Inv t (rows v w)
      → Runs (follow_batch p (chain t) (segment chain (suc t) k) w) (λ _ u. Keeps u)

  -- The next batch: nothing, or blocks from the stream's place on.
  next-Keeps :
      {A : Type 0} {Q : A → W → Type 0} (w : W) (go : List (Block Value) → Exec W A)
      → BatchKeeps
      → Keeps w
      → ((u : W) → Keeps u → Runs (go [] u) Q)
      → ((b : Block Value) (bs : List (Block Value)) (u : W)
          → Runs (follow_batch p b bs u) (λ _ u'. Keeps u')
          → Runs (go (b ∷ bs) u) Q)
      → Runs (continue (on_source p.source.next_finalized w) (λ batch. go batch.blocks)) Q
  next-Keeps {A} {Q} w go step h nothing more =
      let (k, given, moved) = streams.gives w.src in
      Runs-bind _ _ (Runs-on_source p.source.next_finalized w given) λ batch u c.
        let same : u.db ≡ w.db = ap (λ x. x.db) c.1 in
        let here : tip u.src ≡ tip w.src + k = ap (λ x. tip x.src) c.1 ∙ moved in
        let kept : Inv (tip w.src) (rows v u) =
          subst (λ d. Inv (tip w.src) (v.row (v.contents d))) (sym same) h in
        rw (c.0) (at_k k u here kept)
    where
      at_k :
          (k : ℕ) (u : W)
          → tip u.src ≡ tip w.src + k
          → Inv (tip w.src) (rows v u)
          → Runs (go (segment chain (tip w.src) k) u) Q
      at_k zero u here kept =
          nothing u (subst (λ n. Inv n (rows v u)) {x = tip w.src} (omega (arith, here)) kept)
      at_k (suc k) u here kept = more _ _ u (step (tip w.src) k u here kept)

  pub follow_until-Keeps :
      BatchKeeps
      → (waits : List Bool) (w : W) → Keeps w
      → Runs (follow_until p waits w) (λ o u. (o ≡ stops waits) × Keeps u)
  unfolding follow_until
  follow_until-Keeps step [] w h = Runs-pure false w (refl, h)
  follow_until-Keeps step (true ∷ waits) w h = Runs-pure true w (refl, h)
  follow_until-Keeps step (false ∷ waits) w h =
      next-Keeps w _ step h (λ u g. follow_until-Keeps step waits u g)
        λ b bs u r. Runs-bind _ _ r λ _ u' g. follow_until-Keeps step waits u' g

  pub follow_loop-Keeps :
      BatchKeeps
      → (fuel most count : ℕ) (w : W) → most - count < fuel
      → Keeps w
      → Runs (follow_loop p fuel (some most) count w) (λ o u. (o ≡ some tt) × Keeps u)
  unfolding follow_loop bound_hit
  follow_loop-Keeps step zero most count w enough h = absurd (omega arith)
  follow_loop-Keeps step (suc fuel) most count w enough h = elim (Bool-cases (leb most count)) [
    | inl b ↦ rw (b, follow_loop) (Runs-pure (some tt) w (refl, h))
    | inr b ↦
        rw (b, follow_loop)
          (next-Keeps w _ step h (λ u g. Runs-pure (some tt) u (refl, g))
            λ c cs u r.
              Runs-bind _ _ r
                λ _ u' g. follow_loop-Keeps step fuel most (count + 1) u' (ground arith) g)
  ]
