-- ===== src/Core/Traits.antt =====
-- crates/subdex-core/src/source.rs, store.rs, handler.rs and observer.rs: the traits, as records of
-- operations over an unknown state. `Duration` arguments of the observer's hooks are left out.
use subdex.Prelude.{ℕ, String, Option, none, List, [], ◌∷◌}
use subdex.Core.Error.{Result, ok}
use subdex.Core.Types.{BlockId, Block, BlockBatch}
use subdex.Exec.{Exec, pure, ◌>>◌}

module _ (Value : Type 0) where
  pub record DataSource : Type 1 where
    pub Src : Type 0
    pub finalized_head : Exec Src ℕ
    pub fetch_batch : ℕ → ℕ → Exec Src (BlockBatch Value)
    pub next_finalized : Exec Src (BlockBatch Value)
    pub name : String

  -- `Db` is what the store keeps, and `Tx` an open transaction. Dropping a transaction, which is
  -- how the engine rolls back, is forgetting the `Tx`.
  pub record Store : Type 1 where
    pub Db : Type 0
    pub Tx : Type 0
    pub init : Exec Db (Unit {0})
    pub cursor : Exec Db (Option BlockId)
    pub hash_at : ℕ → Exec Db (Option String)
    pub begin : Exec Db Tx
    pub set_cursor : Block Value → Exec Tx (Unit {0})
    pub commit : Tx → Exec Db (Unit {0})
    pub rollback_to : ℕ → Exec Db (Unit {0})
    pub on_backfill_complete : Exec Db (Unit {0})

module _ {Value : Type 0} (S : Store Value) where
  -- `Prepared::write`, with the prepared rows inside.
  abbrev pub Prepared : Type 0
  Prepared = Exec S.Tx (Unit {0})

  -- `prepare` takes no transaction and no `&mut self`: it is a function of the blocks.
  pub record Handler : Type 0 where
    pub init : Exec S.Db (Unit {0})
    pub process_block : Block Value → Exec S.Tx (Unit {0})
    pub process_batch : List (Block Value) → Exec S.Tx (Unit {0})
    pub prepare : List (Block Value) → Result (Option Prepared)
    pub name : String

  -- The trait's default `process_batch`: each block in order, up to the first error.
  unfoldable pub default_process_batch :
      (Block Value → Exec S.Tx (Unit {0})) → List (Block Value) → Exec S.Tx (Unit {0})
  default_process_batch process_block [] = pure tt
  default_process_batch process_block (block ∷ blocks) =
      process_block block >> default_process_batch process_block blocks

  -- The trait's default `prepare`: no separate compute phase.
  unfoldable pub default_prepare : List (Block Value) → Result (Option Prepared)
  default_prepare blocks = ok none

-- What an observer is told. The engine's observer collects these in order.
pub data Observation : Type 0 where
  on_batch_committed : ℕ → ℕ → ℕ → Observation
  on_reorg : ℕ → ℕ → Observation
  on_head : ℕ → Observation
  on_fetch : ℕ → Observation
  on_error : String → String → Observation
