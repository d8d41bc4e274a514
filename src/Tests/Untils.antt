-- ===== src/Tests/Untils.antt =====
-- Whole runs, over a stream that starts two blocks above the head.
use subdex.Prelude.{
  ℕ, suc, ◌+◌, ◌-◌, ◌≤◌, ◌≡◌, refl, Bool, true, false, [], ◌∷◌, arith, u32_max, String,
}
use subdex.Core.Error.{Result, ok}
use subdex.Core.Types.{BlockBatch}
use subdex.Core.Traits.{DataSource}
use subdex.Core.Chain.{Serves, segment}
use subdex.Exec.Runs.{Runs}
use subdex.Processor.{Processor, World}
use subdex.Processor.Run.{run_until}
use subdex.Processor.Run.Streams.{Streams}
use subdex.Processor.Run.Waits.{Waits}
use subdex.Processor.Run.Until.{IsReady, Followed, run_until_fresh, run_until_resumes}
use subdex.Store.Map.{Map, get}
use subdex.Store.Memory.{MemStore, mem_store, mem_view, mem_store-IsStore, mem_store-IsAvailable}
use subdex.Tests.Fixtures.{
  Nothing, chain, chain-IsChain, head, quiet, config, engine-IsGood, forked, forked-Tracks,
}

-- Blocks 8 and 9, and then nothing.
abbrev tip : Bool → ℕ
tip false = 8
tip true = 10

abbrev next_finalized : Bool → Result (BlockBatch Nothing) × Bool
next_finalized false = (ok (record { blocks = segment chain 8 2 }), true)
next_finalized true = (ok (record { blocks = [] }), true)

abbrev late : DataSource Nothing
late = record {
  Src = Bool;
  finalized_head = λ s. (ok head, s);
  fetch_batch = λ from to s. (ok (record { blocks = segment chain from (suc (to - from)) }), s);
  next_finalized = next_finalized;
  name = "late";
}

late-Serves : Serves late chain head
late-Serves = record {
  head_known = λ s. refl;
  fetches = λ from to s _ _. (to - from, omega arith, refl);
}

fits : (s : Bool) → tip s ≤ suc u32_max
fits true = omega arith
fits false = omega arith

gives :
    (s : Bool)
    → (k : ℕ) × ((next_finalized s).0 ≡ ok (record { blocks = segment chain (tip s) k }))
      × (tip (next_finalized s).1 ≡ tip s + k)
gives false = (2, refl, refl)
gives true = (0, refl, refl)

late-Streams : Streams late chain tip
late-Streams = record { fits = fits; gives = gives }

late-Waits : Waits late tip
late-Waits = record { head_waits = λ s. refl; fetch_waits = λ from to s. refl }

abbrev engine : Processor Nothing
engine = record { source = late; store = mem_store Nothing; handlers = quiet ∷ []; config = config }

engine-IsReady : IsReady (mem_store Nothing) (mem_view Nothing) (quiet ∷ [])
engine-IsReady = record {
  store_begins = λ db. (refl, refl);
  handlers_begin = (λ db. (refl, refl), tt);
}

abbrev over : Map (String × String) → World MemStore Bool
over m = record { db = record { blocks = m; inited = false }; src = false; seen = [] }

run_until_fresh_example :
    Runs
      (run_until engine 10 (false ∷ false ∷ true ∷ []) (over []))
      (Followed engine (mem_view Nothing) 0 chain head tip 2 8 (false ∷ false ∷ true ∷ []))
unfolding get
run_until_fresh_example =
    run_until_fresh engine (mem_view Nothing) 0 (mem_store-IsStore Nothing)
      (mem_store-IsAvailable Nothing) engine-IsGood engine-IsReady chain chain-IsChain head
      late-Serves (omega arith) tip late-Streams late-Waits 10 (false ∷ false ∷ true ∷ []) (over [])
      (λ n. refl) (omega arith) (omega arith) (omega arith)

run_until_resumes_example :
    Runs
      (run_until engine 10 (false ∷ true ∷ []) (over forked))
      (Followed engine (mem_view Nothing) 0 chain head tip 0 8 (false ∷ true ∷ []))
run_until_resumes_example =
    run_until_resumes engine (mem_view Nothing) 0 (mem_store-IsStore Nothing)
      (mem_store-IsAvailable Nothing) engine-IsGood engine-IsReady chain chain-IsChain head
      late-Serves (omega arith) tip late-Streams late-Waits 10 0 2 3 (false ∷ true ∷ [])
      (over forked) forked-Tracks (omega arith) (omega arith) (omega arith) (λ _. omega arith) refl
      (omega arith) (omega arith)
