-- ===== src/Processor.antt =====
-- crates/subdex/src/processor.rs: the engine. The methods stand here, and the theorems in the
-- modules below.
pub mod Commit
pub mod Reorg
pub mod Run
pub mod Config
pub mod Metrics
use subdex.Prelude.{
  ℕ, zero, suc, ◌+◌, ◌-◌, ◌<◌, min, String, Bool, true, false, not, ◌&&◌, Option, none, some, List,
  [], ◌∷◌, ◌++◌, length, first, last_or, ltb, leb, ◌==◌, str_eq, if◌then◌else◌, saturating_add,
  decimal, ◌<>◌, u32_max,
}
use subdex.Core.Error.{SubdexError, Result, ok, err, to_string}
use subdex.Core.Types.{BlockId, Block, BlockBatch}
use subdex.Core.Traits.{
  DataSource, Store, Prepared, Handler, Observation, on_batch_committed, on_reorg, on_head,
  on_fetch, on_error,
}
use subdex.Exec.{Exec, pure, raise, continue, ◌>>=◌, ◌>>◌, inspect, inspect_err}

-- crates/subdex/src/config.rs
pub record ProcessorConfig : Type 0 where
  pub start_height : ℕ
  pub batch_size : ℕ
  pub max_reorg_depth : ℕ

module _ (Value : Type 0) where
  -- The observer is what it is told, in `World`.
  pub record Processor : Type 1 where
    pub source : DataSource Value
    pub store : Store Value
    pub handlers : List (Handler store)
    pub config : ProcessorConfig

-- The state that a run works on: the store's, the source's, and the observations so far.
pub record World (Db Src : Type 0) : Type 0 where
  pub db : Db
  pub src : Src
  pub seen : List Observation

module _ {Db Src : Type 0} where
  unfoldable pub on_store : {A : Type 0} → Exec Db A → Exec (World Db Src) A
  on_store m w = let (r, d) = m w.db in (r, record w { db = d })

  unfoldable pub on_source : {A : Type 0} → Exec Src A → Exec (World Db Src) A
  on_source m w = let (r, s) = m w.src in (r, record w { src = s })

  abbrev pub observe : Observation → World Db Src → World Db Src
  observe o w = record w { seen = w.seen ++ (o ∷ []) }

  abbrev pub notify : Observation → Exec (World Db Src) (Unit {0})
  notify o w = (ok tt, observe o w)

  -- `self.observer.on_error(context, &e.to_string())`
  abbrev pub report : String → SubdexError → World Db Src → World Db Src
  report context e = observe (on_error context (to_string e))

  -- A step on the open transaction. After an error the transaction is dropped.
  unfoldable pub on_tx : {Tx : Type 0} → Exec Tx (Unit {0}) → Tx → Exec (World Db Src) Tx
  on_tx m tx w = let (r, t) = m tx in (elim r [ ok _ ↦ ok t | err e ↦ err e ], w)
