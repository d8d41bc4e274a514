-- ===== src/Processor/Run.antt =====
-- The run loop of crates/subdex/src/processor.rs: `init`, `resume_height`, `backfill`, `follow`,
-- `follow_until` and `run_until`. `backfill` and an unbounded `follow` take fuel, and `none` means
-- that it ran out. The shutdown future is its outcome at each wait for the tip: true where it
-- resolves before the next batch, and a wait that it ends leaves the source as it was.
pub mod Backfill
pub mod Reaches
pub mod Safe
pub mod Crashes
pub mod Streams
pub mod Joins
pub mod Waits
pub mod Until
pub mod Follows
use subdex.Prelude.{
  ℕ, zero, suc, ◌+◌, ◌-◌, min, Bool, true, false, Option, none, some, List, [], ◌∷◌, length,
  last_or, leb, if◌then◌else◌, saturating_add,
}
use subdex.Core.Types.{BlockId, Block}
use subdex.Core.Traits.{Store, DataSource, Handler, on_head, on_fetch}
use subdex.Exec.{Exec, pure, ◌>>=◌, ◌>>◌, inspect_err}
use subdex.Processor.{Processor, World, on_store, on_source, notify, report}
use subdex.Processor.Reorg.{process_batch_blocks}

-- Where the loop goes on after a batch that ends in the block `last`.
unfoldable pub next_height : {Value : Type 0} → Block Value → Option ℕ → ℕ
next_height last none = saturating_add last.id.number 1
next_height last (some refetch_from) = refetch_from

-- `if let Some(max) = max_batches { count >= max }`
unfoldable pub bound_hit : Option ℕ → ℕ → Bool
bound_hit none count = false
bound_hit (some most) count = leb most count

module _ {Value : Type 0} (p : Processor Value) where
  unfoldable pub init_all : List (Handler p.store) → Exec (World p.store.Db p.source.Src) (Unit {0})
  init_all [] = pure tt
  init_all (h ∷ hs) = on_store h.init >> init_all hs

  unfoldable pub init : Exec (World p.store.Db p.source.Src) (Unit {0})
  unfolding init_all
  init = do on_store p.store.init; init_all p.handlers

  unfoldable pub resume_height : Exec (World p.store.Db p.source.Src) ℕ
  resume_height = do
    c ← on_store p.store.cursor
    elim c [ some id ↦ pure (saturating_add id.number 1) | none ↦ pure p.config.start_height ]

  -- The last height of the window that is fetched next.
  abbrev pub window_end : ℕ → ℕ → ℕ
  window_end next head = min (saturating_add next (p.config.batch_size - 1)) head

  -- A fetched batch: an empty one ends the loop, and `again` is the loop from a height.
  unfoldable pub backfill_batch :
      ℕ
      → List (Block Value)
      → (ℕ → Exec (World p.store.Db p.source.Src) (Option ℕ))
      → Exec (World p.store.Db p.source.Src) (Option ℕ)
  backfill_batch next [] again = pure (some next)
  backfill_batch next (b ∷ bs) again = do
    outcome ← process_batch_blocks p (b ∷ bs)
    again (next_height (last_or b bs) outcome)

  -- One round of the `while`.
  unfoldable pub backfill_round :
      ℕ
      → ℕ
      → (ℕ → Exec (World p.store.Db p.source.Src) (Option ℕ))
      → Exec (World p.store.Db p.source.Src) (Option ℕ)
  unfolding backfill_batch
  backfill_round next head again =
      if leb next head
      then (do
        batch ←
            inspect_err (report "fetch")
              (on_source (p.source.fetch_batch next (window_end next head)))
        notify (on_fetch (length batch.blocks))
        backfill_batch next batch.blocks again)
      else pure (some next)

  unfoldable pub backfill_loop : ℕ → ℕ → ℕ → Exec (World p.store.Db p.source.Src) (Option ℕ)
  backfill_loop zero next head = pure none
  backfill_loop (suc fuel) next head = backfill_round next head (λ n. backfill_loop fuel n head)

  unfoldable pub backfill : ℕ → Exec (World p.store.Db p.source.Src) (Option ℕ)
  backfill fuel = do
    next ← resume_height
    head ← on_source p.source.finalized_head
    notify (on_head head)
    done ← backfill_loop fuel next head
    elim done [
      | none ↦ pure none
      | some n ↦ do on_store p.store.on_backfill_complete; pure (some n)
    ]

  -- A batch at the tip, which is not empty.
  unfoldable pub follow_batch :
      Block Value → List (Block Value) → Exec (World p.store.Db p.source.Src) (Unit {0})
  follow_batch b bs = do
    notify (on_head (last_or b bs).id.number)
    refetch ← process_batch_blocks p (b ∷ bs)
    pure tt

  -- `follow(max_batches)`; `count` is the loop's own.
  unfoldable pub follow_loop :
      ℕ → Option ℕ → ℕ → Exec (World p.store.Db p.source.Src) (Option (Unit {0}))
  follow_loop zero max_batches count = pure none
  follow_loop (suc fuel) max_batches count = elim (bound_hit max_batches count) [
    | true ↦ pure (some tt)
    | false ↦ do
      batch ← on_source p.source.next_finalized
      elim batch.blocks [
        | [] ↦ elim max_batches [
          | some _ ↦ pure (some tt)
          | none ↦ follow_loop fuel none (count + 1)
        ]
        | b ∷ bs ↦ do follow_batch b bs; follow_loop fuel max_batches (count + 1)
      ]
  ]

  abbrev pub follow : ℕ → Option ℕ → Exec (World p.store.Db p.source.Src) (Option (Unit {0}))
  follow fuel max_batches = follow_loop fuel max_batches 0

  -- `true` is the clean return; `false`, that the run goes on where the given waits end.
  unfoldable pub follow_until : List Bool → Exec (World p.store.Db p.source.Src) Bool
  follow_until [] = pure false
  follow_until (true ∷ waits) = pure true
  follow_until (false ∷ waits) = do
    batch ← on_source p.source.next_finalized
    elim batch.blocks [
      | [] ↦ follow_until waits
      | b ∷ bs ↦ do follow_batch b bs; follow_until waits
    ]

  unfoldable pub run_until : ℕ → List Bool → Exec (World p.store.Db p.source.Src) (Option Bool)
  run_until fuel shutdown = do
    init
    done ← backfill fuel
    elim done [
      | none ↦ pure none
      | some n ↦ do stopped ← follow_until shutdown; pure (some stopped)
    ]
