-- ===== src/Tests/Commits.antt =====
-- Commits that succeed and that fail.
use subdex.Prelude.{◌≡◌, refl, [], ◌∷◌, arith}
use subdex.Core.Error.{SubdexError, ok, err}
use subdex.Core.Traits.{Handler, default_process_batch, default_prepare}
use subdex.Core.StoreLaws.{IsStore}
use subdex.Exec.{raise, continue, inspect}
use subdex.Exec.Runs.{Runs}
use subdex.Processor.{Processor, on_store, on_tx}
use subdex.Processor.Commit.{
  commit_block, commit_batch, prepare_all, write_all, write_one, process_all,
}
use subdex.Processor.Commit.Steps.{advance_all}
use subdex.Processor.Commit.Advances.{Moves, batch_told, commit_batch_lem}
use subdex.Processor.Commit.Atomic.{commit_batch_atomic}
use subdex.Store.Memory.{mem_store, mem_view, mem_store-IsStore, mem_store-IsAvailable}
use subdex.Tests.Fixtures.{
  Nothing, chain, chain_source, quiet, config, engine, engine-IsGood, over, forked,
}

abbrev failure : SubdexError
failure = SubdexError.handler "intentional failure"

abbrev failing : Handler (mem_store Nothing)
failing = record {
  init = λ s. (ok tt, s);
  process_block = λ b. raise failure;
  process_batch = default_process_batch (mem_store Nothing) (λ b. raise failure);
  prepare = default_prepare (mem_store Nothing);
  name = "failing";
}

-- The first handler writes, and the second fails.
abbrev broken : Processor Nothing
broken = record {
  source = chain_source;
  store = mem_store Nothing;
  handlers = quiet ∷ failing ∷ [];
  config = config;
}

broken_batch : (commit_batch broken (chain 4 ∷ []) (over forked)).0 ≡ err failure
unfolding commit_batch continue inspect on_store on_tx prepare_all write_all write_one
    default_process_batch default_prepare
broken_batch = refl

broken_block : (commit_block broken (chain 4) (over forked)).0 ≡ err failure
unfolding commit_block continue on_store on_tx process_all
broken_block = refl

commit_batch_atomic_example :
    (commit_batch broken (chain 4 ∷ []) (over forked)).1.db.blocks ≡ forked
commit_batch_atomic_example =
    commit_batch_atomic broken (mem_view Nothing) 0 (mem_store-IsStore Nothing) (chain 4 ∷ [])
      (over forked) failure broken_batch

commit_batch_lem_example : Runs (commit_batch engine (chain 4 ∷ chain 5 ∷ []) (over forked)) (λ _ u.
    Moves
      (mem_view Nothing)
      (advance_all 0 (chain 4 ∷ chain 5 ∷ []))
      (batch_told (chain 4) (chain 5 ∷ []))
      (over forked)
      u)
commit_batch_lem_example =
    commit_batch_lem engine (mem_view Nothing) 0 (mem_store-IsStore Nothing)
      (mem_store-IsAvailable Nothing) engine-IsGood (chain 4) (chain 5 ∷ []) (over forked)
      (omega arith)

mem_store-IsStore_example : IsStore (mem_store Nothing) (mem_view Nothing) 0
mem_store-IsStore_example = mem_store-IsStore Nothing
