-- ===== src/Tests/Reorgs.antt =====
-- A reorg two blocks deep, and a batch that extends what is kept.
use subdex.Prelude.{suc, ◌≡◌, refl, ◌++◌, none, [], ◌∷◌, decimal, arith}
use subdex.Exec.Runs.{Runs}
use subdex.Core.Chain.{segment}
use subdex.Processor.Commit.Steps.{advance_all}
use subdex.Processor.Commit.Advances.{rows, batch_told}
use subdex.Processor.Reorg.{find_fork_point, process_batch_blocks}
use subdex.Processor.Reorg.Fork.{Reads}
use subdex.Processor.Reorg.Ancestor.{find_fork_point_lem}
use subdex.Processor.Reorg.Rewind.{
  Rewound, process_batch_blocks_extends, process_batch_blocks_reorg,
}
use subdex.Store.Map.{get}
use subdex.Store.Memory.{mem_view, mem_store-IsStore, mem_store-IsAvailable}
use subdex.Tests.Fixtures.{
  Nothing, block, chain, chain-IsChain, head, chain_source-Serves, engine, engine-IsGood, over,
  forked, forked-Tracks,
}

find_fork_point_lem_example :
    Runs
      (find_fork_point engine 3 (decimal 3) (over forked))
      (λ f u. (suc f ≡ 2) × Reads engine (mem_view Nothing) (over forked) u)
find_fork_point_lem_example =
    find_fork_point_lem engine (mem_view Nothing) 0 (mem_store-IsStore Nothing)
      (mem_store-IsAvailable Nothing) chain head chain_source-Serves 0 2 4 forked forked-Tracks
      (omega arith) refl 3 (over forked) refl (omega arith) (omega arith) (omega arith)

process_batch_blocks_reorg_example :
    Runs
      (process_batch_blocks engine (segment chain 4 2) (over forked))
      (Rewound engine (mem_view Nothing) chain 0 2 4 (over forked))
process_batch_blocks_reorg_example =
    process_batch_blocks_reorg engine (mem_view Nothing) 0 (mem_store-IsStore Nothing)
      (mem_store-IsAvailable Nothing) chain chain-IsChain head chain_source-Serves 0 2 4 forked
      forked-Tracks (omega arith) refl (omega arith) 3 1 (over forked) refl (omega arith)
      (omega arith) (omega arith)

process_batch_blocks_extends_example :
    Runs (process_batch_blocks engine (block 4 "4a" "3a" ∷ []) (over forked)) (λ o u.
      (o ≡ none)
      × (rows (mem_view Nothing) u
          ≡ advance_all 0 (block 4 "4a" "3a" ∷ []) (rows (mem_view Nothing) (over forked)))
      × (u.seen ≡ [] ++ batch_told (block 4 "4a" "3a") [])
      × (u.src ≡ tt))
unfolding get
process_batch_blocks_extends_example =
    process_batch_blocks_extends engine (mem_view Nothing) 0 (mem_store-IsStore Nothing)
      (mem_store-IsAvailable Nothing) engine-IsGood (block 4 "4a" "3a") [] (over forked)
      (omega arith) (λ _ h e. ground arith)
