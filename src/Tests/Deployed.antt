-- ===== src/Tests/Deployed.antt =====
-- A backfill of the node's two blocks into an empty database.
use subdex.Prelude.{String, false, none, [], ◌∷◌, refl, arith}
use subdex.Core.Traits.{Handler}
use subdex.Core.Chain.{IsChain}
use subdex.Exec.{pure}
use subdex.Exec.Runs.{Runs}
use subdex.Core.Error.{ok}
use subdex.Processor.{ProcessorConfig, Processor, World}
use subdex.Processor.Commit.Steps.{IsGood}
use subdex.Processor.Run.{backfill}
use subdex.Processor.Run.Reaches.{Done}
use subdex.Source.Value.{Value}
use subdex.Source.Subxt.Node.{Held}
use subdex.Store.Map.{Map, get, keep_upto}
use subdex.Store.Postgres.{pg_store}
use subdex.Store.Postgres.Available.{IsUp}
use subdex.Store.Postgres.Contract.{pg_view}
use subdex.Deployed.{rpc_to_postgres, rpc_to_postgres-Done}
use subdex.Tests.Database.{database, tables, database-IsPostgres, database-IsUsed}
use subdex.Tests.Node.{
  node, no_text, no_hash, config, chain, heads, blocks, one_by_one, one_by_one-IsBuffered,
}

database-IsUp : IsUp database tables
database-IsUp = record {
  cursor_done = λ m. (_, refl);
  hash_done = λ h m. (_, refl);
  begin_done = λ m. (_, refl);
  upsert_done = λ h x y t n m. (_, refl);
  below_done = λ h m. (_, refl);
  above_done = λ h m. (_, refl);
  commit_done = λ tx m. (_, refl);
  deferred_done = λ m. (_, refl);
  clear_done = λ name m. (_, refl);
  ddl_done = λ ddl index m. (_, refl);
}

abbrev idle : Handler (pg_store database Value 2)
idle = record {
  init = λ m. (ok tt, m);
  process_block = λ b. pure tt;
  process_batch = λ bs. pure tt;
  prepare = λ bs. ok none;
  name = "idle";
}

idle-IsGood : IsGood (pg_store database Value 2) (pg_view database tables Value 2) idle
idle-IsGood = (
  record {
    block_keeps = λ b db tx. refl;
    batch_keeps = λ bs db tx. refl;
    write_keeps = λ bs m e. cc;
  },
  record {
    block_works = λ b tx. refl;
    batch_works = λ bs tx. refl;
    prepare_works = λ bs. (none, refl);
    write_works = λ bs m e. cc;
  },
)

chain-IsChain : IsChain chain
chain-IsChain = record { numbered = λ n. refl; linked = λ n. refl }

abbrev from_zero : ProcessorConfig
from_zero = record { start_height = 0; batch_size = 1; max_reorg_depth = 3 }

abbrev deployed : Processor Value
deployed =
    rpc_to_postgres node no_text no_hash no_text (λ n. 7) config one_by_one database 2 (idle ∷ [])
      from_zero

abbrev start : World (Map String) (Held node)
start = record {
  db = [];
  src = record { decoding = record { net = false; failures = [] }; stream = none };
  seen = [];
}

rpc_to_postgres-Done_example :
    Runs (backfill deployed 4 start) (Done deployed (pg_view database tables Value 2) 2 chain 1 0)
unfolding get keep_upto
rpc_to_postgres-Done_example =
    rpc_to_postgres-Done node no_text no_hash no_text (λ n. 7) config one_by_one database 2
      (idle ∷ []) from_zero chain 1 chain-IsChain (record { heads = heads; blocks = blocks })
      one_by_one-IsBuffered (omega arith) (omega arith) tables database-IsPostgres database-IsUsed
      database-IsUp (idle-IsGood, tt) 4 start (λ n. refl) (omega arith) (omega arith)
