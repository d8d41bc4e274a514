-- ===== src/Processor/Reorg.antt =====
-- Reorg handling in crates/subdex/src/processor.rs: `find_fork_point`, `canonical_hash_at`,
-- `process_block` and `process_batch_blocks`. `find_fork_point` recurs on the height, which its loop
-- counts down.
pub mod Fork
pub mod TracksLaws
pub mod Ancestor
pub mod Rewind
pub mod Partial
pub mod TooDeep
use subdex.Prelude.{
  ℕ, zero, suc, ◌-◌, String, ◌<>◌, Bool, not, ◌&&◌, Option, none, some, List, [], ◌∷◌, first, ltb,
  ◌==◌, str_eq, if◌then◌else◌, saturating_add, decimal,
}
use subdex.Core.Error.{SubdexError}
use subdex.Core.Types.{BlockId, Block}
use subdex.Core.Traits.{Store, DataSource, on_reorg}
use subdex.Exec.{Exec, pure, raise, ◌>>=◌, ◌>>◌}
use subdex.Processor.{Processor, World, on_store, on_source, notify}
use subdex.Processor.Commit.{commit_block, commit_batch}

-- `cursor().map(|c| c.number).unwrap_or(0)`
unfoldable pub cursor_number : Option BlockId → ℕ
cursor_number none = 0
cursor_number (some c) = c.number

-- `match cursor { Some(c) => c.number.saturating_sub(fork), None => 0 }`
unfoldable pub rewind_depth : Option BlockId → ℕ → ℕ
rewind_depth none fork = 0
rewind_depth (some c) fork = c.number - fork

module _ {Value : Type 0} (p : Processor Value) where
  unfoldable pub canonical_hash_at : ℕ → Exec (World p.store.Db p.source.Src) String
  canonical_hash_at height = do
    batch ← on_source (p.source.fetch_batch height height)
    elim (first batch.blocks) [
      | none ↦ raise (SubdexError.source ("source returned no block at height " <> decimal height))
      | some b ↦ pure b.id.hash
    ]

  -- One round of the loop of `find_fork_point`; `deeper` is the rest of it, one height down.
  unfoldable pub fork_round :
      ℕ
      → ℕ
      → String
      → Exec (World p.store.Db p.source.Src) ℕ
      → Exec (World p.store.Db p.source.Src) ℕ
  fork_round cursor height canonical deeper =
      let depth = cursor - height in
      if not (p.config.max_reorg_depth == 0) && ltb p.config.max_reorg_depth depth
      then raise (SubdexError.reorg_too_deep depth p.config.max_reorg_depth)
      else do
        stored ← on_store (p.store.hash_at height)
        elim stored [
          | none ↦ pure height
          | some hash ↦ if str_eq hash canonical then pure height else deeper
        ]

  unfoldable pub fork_loop : ℕ → ℕ → String → Exec (World p.store.Db p.source.Src) ℕ
  fork_loop cursor zero canonical = fork_round cursor 0 canonical (pure 0)
  fork_loop cursor (suc height) canonical =
      fork_round cursor (suc height) canonical
        (canonical_hash_at height >>= fork_loop cursor height)

  unfoldable pub find_fork_point : ℕ → String → Exec (World p.store.Db p.source.Src) ℕ
  find_fork_point diverged_height known_canonical = do
    c ← on_store p.store.cursor
    fork_loop (cursor_number c) diverged_height known_canonical

  -- The branch on a mismatch, the same in both callers.
  unfoldable pub rewind : ℕ → String → Exec (World p.store.Db p.source.Src) (Option ℕ)
  rewind parent_height canonical = do
    fork ← find_fork_point parent_height canonical
    c ← on_store p.store.cursor
    on_store (p.store.rollback_to fork)
    notify (on_reorg fork (rewind_depth c fork))
    pure (some (saturating_add fork 1))

  -- The comparison of the parent's stored hash, if there is one.
  unfoldable pub check_stored :
      Block Value → Option String → Exec (World p.store.Db p.source.Src) (Option ℕ)
  check_stored block none = pure none
  check_stored block (some stored_parent_hash) =
      if not (str_eq stored_parent_hash block.parent_hash)
      then rewind (block.id.number - 1) block.parent_hash
      else pure none

  -- The check before a commit: `some` is the height to refetch from.
  unfoldable pub check_parent : Block Value → Exec (World p.store.Db p.source.Src) (Option ℕ)
  unfolding check_stored
  check_parent block =
      if ltb 0 block.id.number
      then (do stored ← on_store (p.store.hash_at (block.id.number - 1)); check_stored block stored)
      else pure none

  unfoldable pub process_block : Block Value → Exec (World p.store.Db p.source.Src) (Option ℕ)
  process_block block = do
    reorg ← check_parent block
    elim reorg [ some from ↦ pure (some from) | none ↦ do commit_block p block; pure none ]

  unfoldable pub process_batch_blocks :
      List (Block Value) → Exec (World p.store.Db p.source.Src) (Option ℕ)
  process_batch_blocks [] = pure none
  process_batch_blocks (b ∷ bs) = do
    reorg ← check_parent b
    elim reorg [ some from ↦ pure (some from) | none ↦ do commit_batch p (b ∷ bs); pure none ]
