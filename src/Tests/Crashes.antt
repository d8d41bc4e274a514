-- ===== src/Tests/Crashes.antt =====
-- A backfill whose source is lost after two batches, and whose handler fails at the height 5.
use subdex.Prelude.{
  ℕ, zero, suc, ◌+◌, ◌≤◌, true, ◌-◌, ◌≡◌, refl, none, List, [], ◌∷◌, ◌==◌, if◌then◌else◌, decimal,
  arith, inr, saturating_add,
}
use subdex.Core.Error.{SubdexError, Result, ok, err}
use subdex.Core.Types.{Block, BlockBatch}
use subdex.Core.Traits.{DataSource, Handler}
use subdex.Core.Chain.{segment}
use subdex.Core.StoreLaws.{Respects}
use subdex.Exec.{Exec, continue, inspect}
use subdex.Processor.{Processor, World, on_store, on_source, on_tx}
use subdex.Processor.Commit.{
  commit_batch, prepare_all, write_all, write_one, set_cursors, event_count,
}
use subdex.Processor.Reorg.{process_batch_blocks, check_parent, check_stored}
use subdex.Processor.Reorg.Fork.{Tracks}
use subdex.Processor.Run.{
  backfill, backfill_loop, backfill_round, backfill_batch, resume_height, next_height,
}
use subdex.Processor.Run.Safe.{IsTruthful, IsSafe}
use subdex.Processor.Run.Crashes.{backfill-IsSafe}
use subdex.Store.Map.{get, insert, next_back}
use subdex.Store.Memory.{MemStore, mem_store, mem_view, mem_store-IsStore, cursor, hash_at, commit}
use subdex.Tests.Fixtures.{Nothing, chain, chain-IsChain, head, config}

-- It answers as often as its state says, and is lost after that.
abbrev fetch : ℕ → ℕ → Exec ℕ (BlockBatch Nothing)
fetch from to zero = (err (SubdexError.source "timeout"), zero)
fetch from to (suc n) = (ok (record { blocks = segment chain from (suc (to - from)) }), n)

abbrev flaky_source : DataSource Nothing
flaky_source = record {
  Src = ℕ;
  finalized_head = λ n. (ok head, n);
  fetch_batch = fetch;
  next_finalized = λ n. (ok (record { blocks = [] }), n);
  name = "flaky";
}

fetched :
    (from to n : ℕ) (batch : BlockBatch Nothing)
    → from ≤ to
    → (fetch from to n).0 ≡ ok batch
    → (k : ℕ) × (from + k ≤ suc to) × (batch ≡ record { blocks = segment chain from k })
fetched from to zero batch le e = absurd cc
fetched from to (suc n) batch le e = (suc (to - from), omega arith, cc e)

flaky_source-IsTruthful : IsTruthful flaky_source chain
flaky_source-IsTruthful = record {
  head_fits = λ n top e. omega (arith, known top e);
  fetches_only = fetched;
}
  where
    known : (top : ℕ) → ok head ≡ ok top → head ≡ top
    known top e = cc e

-- It refuses a batch that starts at the height 4.
abbrev verdict : List (Block Nothing) → Result (Unit {0})
verdict [] = ok tt
verdict (b ∷ bs) = if b.id.number == 4 then err (SubdexError.handler "four") else ok tt

abbrev picky : Handler (mem_store Nothing)
picky = record {
  init = λ s. (ok tt, s);
  process_block = λ b tx. (verdict (b ∷ []), tx);
  process_batch = λ bs tx. (verdict bs, tx);
  prepare = λ bs. ok none;
  name = "picky";
}

picky-Respects : Respects (mem_store Nothing) (mem_view Nothing) picky
picky-Respects = record {
  block_keeps = λ b db tx. refl;
  batch_keeps = λ bs db tx. refl;
  write_keeps = λ bs m e. cc;
}

abbrev flaky : Processor Nothing
flaky = record {
  source = flaky_source;
  store = mem_store Nothing;
  handlers = picky ∷ [];
  config = config;
}

-- The source answers so many times.
abbrev after_calls : ℕ → World MemStore ℕ
after_calls n = record { db = record { blocks = []; inited = true }; src = n; seen = [] }

empty-Tracks : Tracks chain 2 2 2 ((mem_view Nothing).row [])
unfolding get
empty-Tracks = record {
  lo_le = omega arith;
  good_le = omega arith;
  shared = λ n p q. absurd (omega arith);
  stale = λ n p q. absurd (omega arith);
  below = λ n p. refl;
  above = λ n p. refl;
}

lost : (backfill flaky 10 (after_calls 1)).0 ≡ err (SubdexError.source "timeout")
unfolding backfill backfill_loop backfill_round backfill_batch resume_height next_height continue
    inspect on_store on_source on_tx commit_batch prepare_all write_all write_one set_cursors
    event_count process_batch_blocks check_parent check_stored cursor hash_at commit get insert
    next_back decimal saturating_add
lost = refl

refused : (backfill flaky 10 (after_calls 2)).0 ≡ err (SubdexError.handler "four")
unfolding backfill backfill_loop backfill_round backfill_batch resume_height next_height continue
    inspect on_store on_source on_tx commit_batch prepare_all write_all write_one set_cursors
    event_count process_batch_blocks check_parent check_stored cursor hash_at commit get insert
    next_back decimal saturating_add
refused = refl

backfill-IsSafe_example :
    IsSafe chain 0 2 2 (
      (mem_view Nothing).row ((mem_view Nothing).contents (backfill flaky 10 (after_calls 2)).1.db))
backfill-IsSafe_example =
    backfill-IsSafe flaky (mem_view Nothing) 0 (mem_store-IsStore Nothing) (picky-Respects, tt)
      chain chain-IsChain flaky_source-IsTruthful 10 2 2 (after_calls 2) empty-Tracks (omega arith)
      (inr refl)
