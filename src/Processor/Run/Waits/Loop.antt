-- ===== src/Processor/Run/Waits/Loop.antt =====
-- The place of a source's stream over a whole backfill.
use subdex.Prelude.{
  ℕ, zero, suc, ◌-◌, ◌≡◌, String, not, Option, none, some, List, [], ◌∷◌, ltb, leb, str_eq, inl,
  inr, Bool-cases, Option-cases,
}
use subdex.Core.Types.{Block}
use subdex.Exec.{Exec}
use subdex.Processor.{Processor, World}
use subdex.Processor.Reorg.{
  find_fork_point, cursor_number, rewind, check_stored, check_parent, process_batch_blocks,
}
use subdex.Processor.Run.{
  resume_height, window_end, backfill_batch, backfill_round, backfill_loop, backfill,
}
use subdex.Processor.Run.Waits.{
  Waits, Stays, Stays-bind, Stays-inspect, Stays-on_store, Stays-finalized_head, Stays-fetch,
  Stays-commit_batch, Stays-fork_loop,
}

module _ {Value : Type 0} (p : Processor Value) (tip : p.source.Src → ℕ)
    (waits : Waits p.source tip) (x : ℕ) where
  abbrev W : Type 0
  W = World p.store.Db p.source.Src

  Stays-rewind :
      (height : ℕ) (canonical : String) (w : W)
      → tip w.src ≡ x
      → Stays tip x (rewind p height canonical w)
  unfolding rewind find_fork_point
  Stays-rewind height canonical w e =
      Stays-bind tip x _ _
        (Stays-bind tip x _ _ (Stays-on_store tip x p.store.cursor w e)
          λ c u e'. Stays-fork_loop p tip waits x (cursor_number c) height canonical u e')
        λ fork u₁ e₁. Stays-bind tip x _ _ (Stays-on_store tip x p.store.cursor u₁ e₁) λ c u₂ e₂.
          Stays-bind tip x _ _ (Stays-on_store tip x (p.store.rollback_to fork) u₂ e₂)
            λ _ u₃ e₃. Stays-bind tip x _ _ e₃ λ _ u₄ e₄. e₄

  Stays-check_stored :
      (b : Block Value) (o : Option String) (w : W)
      → tip w.src ≡ x
      → Stays tip x (check_stored p b o w)
  unfolding check_stored
  Stays-check_stored b none w e = e
  Stays-check_stored b (some h) w e = elim (Bool-cases (not (str_eq h b.parent_hash))) [
    | inl c ↦ rw c (Stays-rewind (b.id.number - 1) b.parent_hash w e)
    | inr c ↦ rw c e
  ]

  Stays-check_parent : (b : Block Value) (w : W) → tip w.src ≡ x → Stays tip x (check_parent p b w)
  unfolding check_parent
  Stays-check_parent b w e = elim (Bool-cases (ltb 0 b.id.number)) [
    | inr c ↦ rw c e
    | inl c ↦ rw c (
        Stays-bind tip x _ _ (Stays-on_store tip x (p.store.hash_at (b.id.number - 1)) w e)
          λ o u e'. Stays-check_stored b o u e')
  ]

  Stays-process_batch_blocks :
      (bs : List (Block Value)) (w : W) → tip w.src ≡ x → Stays tip x (process_batch_blocks p bs w)
  unfolding process_batch_blocks
  Stays-process_batch_blocks [] w e = e
  Stays-process_batch_blocks (b ∷ bs) w e =
      Stays-bind tip x _ _ (Stays-check_parent b w e) λ o u e'. elim (Option-cases o) [
        | inr (n, s) ↦ rw s e'
        | inl n ↦
            rw n (
              Stays-bind tip x _ _ (Stays-commit_batch p tip waits x (b ∷ bs) u e') λ _ u' e''. e'')
      ]

  Stays-resume_height : (w : W) → tip w.src ≡ x → Stays tip x (resume_height p w)
  unfolding resume_height
  Stays-resume_height w e =
      Stays-bind tip x _ _ (Stays-on_store tip x p.store.cursor w e)
        λ c u e'. elim (Option-cases c) [ inl n ↦ rw n e' | inr (id, s) ↦ rw s e' ]

  Stays-backfill_batch :
      (next : ℕ) (bs : List (Block Value)) (again : ℕ → Exec W (Option ℕ)) (w : W)
      → tip w.src ≡ x
      → ((n : ℕ) (u : W) → tip u.src ≡ x → Stays tip x (again n u))
      → Stays tip x (backfill_batch p next bs again w)
  unfolding backfill_batch
  Stays-backfill_batch next [] again w e k = e
  Stays-backfill_batch next (b ∷ bs) again w e k =
      Stays-bind tip x _ _ (Stays-process_batch_blocks (b ∷ bs) w e) λ o u e'. k _ u e'

  Stays-backfill_loop :
      (fuel next head : ℕ) (w : W) → tip w.src ≡ x → Stays tip x (backfill_loop p fuel next head w)
  unfolding backfill_loop backfill_round
  Stays-backfill_loop zero next head w e = e
  Stays-backfill_loop (suc fuel) next head w e = elim (Bool-cases (leb next head)) [
    | inr c ↦ rw c e
    | inl c ↦ rw c (
        Stays-bind tip x _ _
          (Stays-inspect tip x "fetch" _
            (Stays-fetch p tip waits x next (window_end p next head) w e))
          λ batch u₁ e₁. Stays-bind tip x _ _ e₁ λ _ u₂ e₂.
            Stays-backfill_batch next batch.blocks _ u₂ e₂
              λ n u₃ e₃. Stays-backfill_loop fuel n head u₃ e₃)
  ]

  -- However a backfill ends, the stream is where it was.
  pub Stays-backfill : (fuel : ℕ) (w : W) → tip w.src ≡ x → Stays tip x (backfill p fuel w)
  unfolding backfill
  Stays-backfill fuel w e = Stays-bind tip x _ _ (Stays-resume_height w e) λ next u₁ e₁.
      Stays-bind tip x _ _ (Stays-finalized_head p tip waits x u₁ e₁) λ head u₂ e₂.
        Stays-bind tip x _ _ e₂ λ _ u₃ e₃.
          Stays-bind tip x _ _ (Stays-backfill_loop fuel next head u₃ e₃) λ o u₄ e₄.
            elim (Option-cases o) [
              | inl n ↦ rw n e₄
              | inr (n, s) ↦ rw s (
                  Stays-bind tip x _ _ (Stays-on_store tip x p.store.on_backfill_complete u₄ e₄)
                    λ _ u₅ e₅. e₅)
            ]
