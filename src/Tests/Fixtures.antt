-- ===== src/Tests/Fixtures.antt =====
-- A chain of six blocks, a source that serves it, a handler that writes nothing, and the engine over
-- an in-memory store.
use subdex.Prelude.{
  ℕ, zero, suc, ◌-◌, ◌≤◌, ◌<◌, ◌≡◌, refl, ◌≢◌, String, true, none, some, List, All, [], ◌∷◌,
  decimal, arith, eq_iff,
}
use subdex.Core.Error.{ok}
use subdex.Core.Types.{Block}
use subdex.Core.Traits.{DataSource, Handler, default_process_batch, default_prepare}
use subdex.Core.Chain.{IsChain, Serves, segment}
use subdex.Exec.{pure, continue}
use subdex.Processor.{ProcessorConfig, Processor, World}
use subdex.Processor.Commit.Steps.{IsGood}
use subdex.Processor.Reorg.Fork.{Tracks}
use subdex.Store.Map.{Map, get}
use subdex.Store.Memory.{MemStore, mem_store, mem_view}

abbrev pub Nothing : Type 0
Nothing = Unit {0}

abbrev pub block : ℕ → String → String → Block Nothing
block n hash parent = record {
  id = record { number = n; hash = hash };
  parent_hash = parent;
  timestamp = none;
  spec_version = 1;
  finalized = true;
  extrinsics = [];
  events = [];
}

abbrev parent_of : ℕ → String
parent_of zero = ""
parent_of (suc n) = decimal n

abbrev pub chain : ℕ → Block Nothing
chain n = block n (decimal n) (parent_of n)

pub chain-IsChain : IsChain chain
chain-IsChain = record { numbered = λ n. refl; linked = λ n. refl }

abbrev pub head : ℕ
head = 5

-- It has no state, and gives every block it is asked for.
abbrev pub chain_source : DataSource Nothing
chain_source = record {
  Src = Nothing;
  finalized_head = λ s. (ok head, s);
  fetch_batch = λ from to s. (ok (record { blocks = segment chain from (suc (to - from)) }), s);
  next_finalized = λ s. (ok (record { blocks = [] }), s);
  name = "chain";
}

pub chain_source-Serves : Serves chain_source chain head
chain_source-Serves = record {
  head_known = λ s. refl;
  fetches = λ from to s _ _. (to - from, omega arith, refl);
}

abbrev pub quiet : Handler (mem_store Nothing)
quiet = record {
  init = λ s. (ok tt, s);
  process_block = λ b. pure tt;
  process_batch = default_process_batch (mem_store Nothing) (λ b. pure tt);
  prepare = default_prepare (mem_store Nothing);
  name = "quiet";
}

abbrev pub config : ProcessorConfig
config = record { start_height = 2; batch_size = 2; max_reorg_depth = 3 }

abbrev pub engine : Processor Nothing
engine = record {
  source = chain_source;
  store = mem_store Nothing;
  handlers = quiet ∷ [];
  config = config;
}

abbrev pub World₀ : Type 0
World₀ = World MemStore Nothing

abbrev pub over : Map (String × String) → World₀
over m = record { db = record { blocks = m; inited = true }; src = tt; seen = [] }

quiet_runs :
    (bs : List (Block Nothing)) (tx : List (ℕ × String × String))
    → quiet.process_batch bs tx ≡ (ok tt, tx)
unfolding default_process_batch continue
quiet_runs [] tx = refl
quiet_runs (b ∷ bs) tx = quiet_runs bs tx

pub quiet-IsGood : IsGood (mem_store Nothing) (mem_view Nothing) quiet
unfolding default_prepare
quiet-IsGood = (
  record {
    block_keeps = λ b db tx. refl;
    batch_keeps = λ bs db tx. rw quiet_runs;
    write_keeps = λ bs m e. cc;
  },
  record {
    block_works = λ b tx. refl;
    batch_works = λ bs tx. rw quiet_runs;
    prepare_works = λ bs. (none, refl);
    write_works = λ bs m e. cc;
  },
)

-- The handlers of `engine`.
pub engine-IsGood : All (IsGood (mem_store Nothing) (mem_view Nothing)) (quiet ∷ [])
engine-IsGood = (quiet-IsGood, tt)

-- Heights 0 to 3 are kept: the chain's below 2, and another fork's from there on.
abbrev pub forked : Map (String × String)
forked = (0, ("0", "")) ∷ (1, ("1", "0")) ∷ (2, ("2a", "1")) ∷ (3, ("3a", "2a")) ∷ []

pub forked-Tracks : Tracks chain 0 2 4 ((mem_view Nothing).row forked)
unfolding get
forked-Tracks = record {
  lo_le = omega arith;
  good_le = omega arith;
  shared = λ n p q. shared n q;
  stale = λ n p q. stale n p q;
  below = λ n p. absurd (omega arith);
  above = λ n p. ground arith;
}
  where
    shared : (n : ℕ) → n < 2 → (mem_view Nothing).row forked n ≡ some (decimal n)
    shared zero q = unfold decimal in refl
    shared (suc zero) q = unfold decimal in refl
    shared (suc (suc n)) q = absurd (omega arith)

    stale :
        (n : ℕ)
        → 2 ≤ n
        → n < 4
        → (x : String) × ((mem_view Nothing).row forked n ≡ some x) × (x ≢ decimal n)
    stale zero p q = absurd (omega arith)
    stale (suc zero) p q = absurd (omega arith)
    stale (suc (suc zero)) p q = ("2a", refl, unfold decimal in ground (arith, eq_iff "2a" "2"))
    stale (suc (suc (suc zero))) p q =
        ("3a", refl, unfold decimal in ground (arith, eq_iff "3a" "3"))
    stale (suc (suc (suc (suc n)))) p q = absurd (omega arith)
