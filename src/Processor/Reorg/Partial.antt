-- ===== src/Processor/Reorg/Partial.antt =====
-- The reorg check and the commit of a batch where any call of the store and of the handlers may fail.
use subdex.Prelude.{
  ℕ, ◌-◌, ◌<◌, ◌≡◌, List, refl, ◌∙◌, sym, ap, String, Option, none, some, All, ◌∷◌, ltb, ltb→lt,
  inl, inr, Bool-cases, Option-cases, eq_iff,
}
use subdex.Core.Types.{Block, Fits}
use subdex.Core.StoreLaws.{View, IsStore, Respects}
use subdex.Exec.Ends.{Ends, Ends-bind, Ends-map}
use subdex.Processor.{Processor, World}
use subdex.Processor.Commit.Steps.{advance_all}
use subdex.Processor.Commit.Advances.{rows}
use subdex.Processor.Commit.Partial.{Ends-on_store, Ends-commit_batch}
use subdex.Processor.Reorg.{check_parent, check_stored, process_batch_blocks}

module _ {Value : Type 0} (p : Processor Value) (v : View p.store) (retention : ℕ)
    (L : IsStore p.store v retention) (g : All (Respects p.store v) p.handlers) where
  abbrev W : Type 0
  W = World p.store.Db p.source.Src

  abbrev Same : W → W → Type 0
  Same w u = v.contents u.db ≡ v.contents w.db

  Ends-check_parent :
      (b : Block Value) (w : W)
      → (0 < b.id.number → (h : String) → rows v w (b.id.number - 1) ≡ some h → h ≡ b.parent_hash)
      → Ends (λ o u. (o ≡ none) × Same w u) (Same w) (check_parent p b w)
  unfolding check_parent check_stored Ends
  Ends-check_parent b w h = elim (Bool-cases (ltb 0 b.id.number)) [
    | inr z ↦ rw z (refl, refl)
    | inl z ↦ rw z (
        Ends-bind (Same w) (λ o u. (o ≡ none) × Same w u)
          (λ o u. (o ≡ rows v w (b.id.number - 1)) × Same w u) _ _
          (Ends-on_store (Same w) (λ o u. (o ≡ rows v w (b.id.number - 1)) × Same w u)
            (p.store.hash_at (b.id.number - 1)) w
            (λ o e. (L.hash_at_reads _ w.db o e, L.hash_at_keeps _ w.db))
            (λ _ _. L.hash_at_keeps _ w.db))
          λ o u c. elim (Option-cases o) [
            | inl e ↦ rw e (refl, c.1)
            | inr (x, e) ↦
                rw (e, (eq_iff x b.parent_hash).1 (h (ltb→lt _ _ z) x (sym c.0 ∙ e))) (refl, c.1)
          ])
  ]

  pub Ends-process_batch_blocks :
      (b : Block Value) (bs : List (Block Value)) (w : W)
      → All Fits (b ∷ bs)
      → (0 < b.id.number → (h : String) → rows v w (b.id.number - 1) ≡ some h → h ≡ b.parent_hash)
      → Ends
          (λ o u. (o ≡ none) × (rows v u ≡ advance_all retention (b ∷ bs) (rows v w)))
          (Same w)
          (process_batch_blocks p (b ∷ bs) w)
  unfolding process_batch_blocks Ends
  Ends-process_batch_blocks b bs w fits h =
      let Q : Option ℕ → W → Type 0 =
        λ o u. (o ≡ none) × (rows v u ≡ advance_all retention (b ∷ bs) (rows v w)) in
      Ends-bind (Same w) Q (λ o u. (o ≡ none) × Same w u) _ _ (Ends-check_parent b w h)
        λ o u c. rw (c.0) (
          Ends-bind (Same w) Q (λ _ u'. rows v u' ≡ advance_all retention (b ∷ bs) (rows v w)) _ _
            (Ends-map (Same u) (Same w)
              (λ _ u'. rows v u' ≡ advance_all retention (b ∷ bs) (rows v u))
              (λ _ u'. rows v u' ≡ advance_all retention (b ∷ bs) (rows v w)) _
              (Ends-commit_batch p v retention L g b bs u fits)
              (λ _ u' k. k ∙ ap (λ x. advance_all retention (b ∷ bs) (v.row x)) c.1)
              (λ u' k. k ∙ c.1))
            λ _ u' k. (refl, k))
