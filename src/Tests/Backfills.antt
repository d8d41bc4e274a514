-- ===== src/Tests/Backfills.antt =====
-- Backfills of the chain.
use subdex.Prelude.{◌≡◌, refl, some, [], decimal, arith, saturating_add}
use subdex.Core.Error.{ok}
use subdex.Core.Traits.{default_process_batch, default_prepare}
use subdex.Exec.{continue, inspect}
use subdex.Exec.Runs.{Runs}
use subdex.Processor.{on_store, on_source, on_tx}
use subdex.Processor.Commit.{
  commit_batch, prepare_all, write_all, write_one, set_cursors, event_count,
}
use subdex.Processor.Reorg.{
  process_batch_blocks, check_parent, rewind, find_fork_point, fork_loop, fork_round,
  canonical_hash_at, cursor_number, rewind_depth,
}
use subdex.Processor.Run.{backfill, backfill_loop, backfill_round, resume_height, next_height}
use subdex.Processor.Run.Reaches.{Done, backfill_resumes, backfill_fresh}
use subdex.Store.Memory.{
  mem_view, mem_store-IsStore, mem_store-IsAvailable, cursor, hash_at, commit, rollback_to,
}
use subdex.Store.Map.{get, insert, next_back, keep_below}
use subdex.Tests.Fixtures.{
  Nothing, chain, chain-IsChain, head, chain_source-Serves, engine, engine-IsGood, over, forked,
  forked-Tracks,
}

-- From a fork two blocks deep, with batches of two.
forked_run : (backfill engine 10 (over forked)).0 ≡ ok (some 6)
unfolding backfill backfill_loop backfill_round resume_height next_height continue inspect on_store
    on_source on_tx commit_batch prepare_all write_all write_one set_cursors event_count
    process_batch_blocks check_parent rewind find_fork_point fork_loop fork_round canonical_hash_at
    cursor_number rewind_depth cursor hash_at commit rollback_to get insert next_back keep_below
    decimal saturating_add default_process_batch default_prepare
forked_run = refl

backfill_resumes_example :
    Runs (backfill engine 10 (over forked)) (Done engine (mem_view Nothing) 0 chain head 0)
backfill_resumes_example =
    backfill_resumes engine (mem_view Nothing) 0 (mem_store-IsStore Nothing)
      (mem_store-IsAvailable Nothing) engine-IsGood chain chain-IsChain head chain_source-Serves
      (omega arith) 10 0 2 3 (over forked) forked-Tracks (omega arith) (omega arith) (omega arith)
      (λ _. omega arith) refl (omega arith)

backfill_fresh_example :
    Runs (backfill engine 10 (over [])) (Done engine (mem_view Nothing) 0 chain head 2)
unfolding get
backfill_fresh_example =
    backfill_fresh engine (mem_view Nothing) 0 (mem_store-IsStore Nothing)
      (mem_store-IsAvailable Nothing) engine-IsGood chain chain-IsChain head chain_source-Serves
      (omega arith) 10 (over []) (λ n. refl) (omega arith) (omega arith)
