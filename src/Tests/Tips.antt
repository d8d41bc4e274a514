-- ===== src/Tests/Tips.antt =====
-- The tip of the chain: a stream of two blocks, a reorg too deep, and a block committed both ways.
use subdex.Prelude.{
  ℕ, zero, suc, ◌+◌, ◌-◌, ◌≤◌, ◌<◌, ◌≡◌, refl, Bool, true, false, some, List, [], ◌∷◌, arith,
  decimal, none, u32_max,
}
use subdex.Core.Error.{Result, ok}
use subdex.Core.Types.{BlockBatch}
use subdex.Core.Traits.{DataSource}
use subdex.Core.Chain.{segment}
use subdex.Exec.Runs.{Runs}
use subdex.Exec.Raises.{Raises}
use subdex.Processor.{Processor, World}
use subdex.Processor.Commit.{commit_block, commit_batch}
use subdex.Processor.Commit.Advances.{rows}
use subdex.Processor.Commit.Single.{IsPerBlock, EndsAlike, commit_batch-commit_block}
use subdex.Processor.Reorg.{process_batch_blocks}
use subdex.Processor.Reorg.Fork.{Reads}
use subdex.Processor.Reorg.TooDeep.{IsLost, TooDeep, process_batch_blocks-TooDeep}
use subdex.Processor.Run.{follow_until}
use subdex.Processor.Run.Streams.{Streams, stops}
use subdex.Processor.Run.Follows.{Follows, follow_until-Follows}
use subdex.Store.Map.{get}
use subdex.Store.Memory.{MemStore, mem_store, mem_view, mem_store-IsStore, mem_store-IsAvailable}
use subdex.Tests.Fixtures.{
  Nothing, chain, chain-IsChain, head, chain_source, chain_source-Serves, quiet, engine,
  engine-IsGood, over, forked, forked-Tracks,
}

-- An engine that may go back by one block only.
abbrev timid : Processor Nothing
timid = record {
  source = chain_source;
  store = mem_store Nothing;
  handlers = quiet ∷ [];
  config = record { start_height = 2; batch_size = 2; max_reorg_depth = 1 };
}

lost : IsLost timid (mem_view Nothing) chain 3 3 forked
lost = record {
  bounded = omega arith;
  deep = omega arith;
  inside = omega arith;
  below_top = omega arith;
  stale = λ n lo hi. forked-Tracks.stale n lo (omega arith);
  last = let (x, kept, _) = forked-Tracks.stale 3 (omega arith) (omega arith) in (x, kept);
  above = λ n past. forked-Tracks.above n past;
}

process_batch_blocks-TooDeep_example :
    Raises
      (TooDeep timid)
      (Reads timid (mem_view Nothing) (over forked))
      (process_batch_blocks timid (segment chain 4 2) (over forked))
process_batch_blocks-TooDeep_example =
    process_batch_blocks-TooDeep timid (mem_view Nothing) 0 (mem_store-IsStore Nothing)
      (mem_store-IsAvailable Nothing) chain chain-IsChain head chain_source-Serves 3 3 forked lost 1
      (over forked) refl (omega arith)

quiet-IsPerBlock : IsPerBlock (mem_store Nothing) quiet
quiet-IsPerBlock = record { batches = λ bs. refl; prepares = λ bs. refl }

commit_batch-commit_block_example :
    EndsAlike
      (commit_block engine (chain 4) (over forked))
      (commit_batch engine (chain 4 ∷ []) (over forked))
commit_batch-commit_block_example =
    commit_batch-commit_block engine (quiet-IsPerBlock, tt) (chain 4) (over forked)

-- Blocks 2 and 3, and then nothing.
abbrev tip : Bool → ℕ
tip false = 2
tip true = 4

abbrev next_finalized : Bool → Result (BlockBatch Nothing) × Bool
next_finalized false = (ok (record { blocks = segment chain 2 2 }), true)
next_finalized true = (ok (record { blocks = [] }), true)

abbrev stream : DataSource Nothing
stream = record {
  Src = Bool;
  finalized_head = λ s. (ok head, s);
  fetch_batch = λ from to s. (ok (record { blocks = segment chain from (suc (to - from)) }), s);
  next_finalized = next_finalized;
  name = "stream";
}

fits : (s : Bool) → tip s ≤ suc u32_max
fits true = omega arith
fits false = omega arith

gives :
    (s : Bool)
    → (k : ℕ) × ((next_finalized s).0 ≡ ok (record { blocks = segment chain (tip s) k }))
      × (tip (next_finalized s).1 ≡ tip s + k)
gives false = (2, refl, refl)
gives true = (0, refl, refl)

stream-Streams : Streams stream chain tip
stream-Streams = record { fits = fits; gives = gives }

abbrev follower : Processor Nothing
follower = record {
  source = stream;
  store = mem_store Nothing;
  handlers = quiet ∷ [];
  config = record { start_height = 0; batch_size = 2; max_reorg_depth = 3 };
}

abbrev start : World MemStore Bool
start = record {
  db = record { blocks = (1, ("1", "0")) ∷ []; inited = true };
  src = false;
  seen = [];
}

start-Follows : Follows 0 chain 1 (tip start.src) (rows (mem_view Nothing) start)
unfolding get
start-Follows = (
  1,
  omega arith,
  record {
    lo_le = omega arith;
    good_le = omega arith;
    shared = shared;
    stale = λ n p q. absurd (omega arith);
    below = below;
    above = λ n p. ground arith;
  },
)
  where
    shared : (n : ℕ) → 1 ≤ n → n < 2 → (mem_view Nothing).row start.db.blocks n ≡ some (decimal n)
    shared zero p q = absurd (omega arith)
    shared (suc zero) p q = unfold decimal in refl
    shared (suc (suc n)) p q = absurd (omega arith)

    below : (n : ℕ) → n < 1 → (mem_view Nothing).row start.db.blocks n ≡ none
    below zero p = refl
    below (suc n) p = absurd (omega arith)

abbrev waits : List Bool
waits = false ∷ false ∷ true ∷ []

follow_until-Follows_example :
    Runs
      (follow_until follower waits start)
      (λ o u. (o ≡ stops waits) × Follows 0 chain 1 (tip u.src) (rows (mem_view Nothing) u))
follow_until-Follows_example =
    follow_until-Follows follower (mem_view Nothing) 0 (mem_store-IsStore Nothing)
      (mem_store-IsAvailable Nothing) engine-IsGood chain chain-IsChain tip stream-Streams 1 waits
      start start-Follows
