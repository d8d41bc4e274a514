-- ===== src/Source/Hybrid.antt =====
-- crates/subdex-source/src/hybrid.rs: `HybridSource`, a source over any two sources.
use subdex.Prelude.{ℕ, ◌≤◌, max, ◌≡◌, ap, arith}
use subdex.Core.Error.{ok}
use subdex.Core.Types.{Block}
use subdex.Core.Traits.{DataSource}
use subdex.Core.Chain.{Serves}
use subdex.Exec.{Exec, pure, continue, ◌>>=◌}

module _ {Value : Type 0} (backfill tip : DataSource Value) where
  abbrev Both : Type 0
  Both = backfill.Src × tip.Src

  unfoldable pub on_backfill : {A : Type 0} → Exec backfill.Src A → Exec Both A
  on_backfill m (s, u) = let (r, s') = m s in (r, (s', u))

  unfoldable pub on_tip : {A : Type 0} → Exec tip.Src A → Exec Both A
  on_tip m (s, u) = let (r, u') = m u in (r, (s, u'))

  unfoldable pub finalized_head : Exec Both ℕ
  finalized_head = do
    b ← on_backfill backfill.finalized_head
    t ← on_tip tip.finalized_head
    pure (max b t)

  abbrev pub hybrid : DataSource Value
  hybrid = record {
    Src = Both;
    finalized_head = finalized_head;
    fetch_batch = λ from to. on_backfill (backfill.fetch_batch from to);
    next_finalized = on_tip tip.next_finalized;
    name = "hybrid";
  }

  -- Where the backfill source serves a chain up to a head, and the tip source's head is not above it,
  -- so does the two together.
  hybrid-Serves :
      (chain : ℕ → Block Value) (head tip_head : ℕ)
      → Serves backfill chain head
      → ((u : tip.Src) → (tip.finalized_head u).0 ≡ ok tip_head)
      → tip_head ≤ head
      → Serves hybrid chain head
  unfolding finalized_head on_backfill on_tip continue
  hybrid-Serves chain head tip_head h t le = record {
    head_known = λ s. rw (h.head_known s.0) (rw (t s.1) (ap (λ n. ok n) (omega arith)));
    fetches = λ from to s. h.fetches from to s.0;
  }
