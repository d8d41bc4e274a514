-- ===== src/Processor/Commit.antt =====
-- `commit_block` and `commit_batch` of crates/subdex/src/processor.rs. `try_join_all` polls the
-- handlers' `prepare` in order, and `prepare` is pure, so the first error is the first in order.
pub mod Atomic
pub mod Steps
pub mod Advances
pub mod Partial
pub mod Single
use subdex.Prelude.{ℕ, ◌+◌, Option, none, some, List, [], ◌∷◌, length, last_or}
use subdex.Core.Error.{Result, ok, err}
use subdex.Core.Types.{Block}
use subdex.Core.Traits.{Store, Prepared, Handler, on_batch_committed}
use subdex.Exec.{Exec, pure, ◌>>=◌, ◌>>◌, inspect_err}
use subdex.Processor.{Processor, World, on_store, on_tx, notify, report}

-- `blocks.iter().map(|b| b.events.len()).sum()`
unfoldable pub event_count : {Value : Type 0} → List (Block Value) → ℕ
event_count [] = 0
event_count (b ∷ bs) = length b.events + event_count bs

module _ {Value : Type 0} (S : Store Value) where
  -- Phase 1: `try_join_all` of every handler's `prepare`.
  unfoldable pub prepare_all :
      List (Handler S) → List (Block Value) → Result (List (Option (Prepared S)))
  prepare_all [] blocks = ok []
  prepare_all (h ∷ hs) blocks = elim (h.prepare blocks) [
    | ok p ↦ elim (prepare_all hs blocks) [ ok ps ↦ ok (p ∷ ps) | err e ↦ err e ]
    | err e ↦ err e
  ]

  module _ {Src : Type 0} where
    -- One handler's part of phase 2.
    unfoldable pub write_one :
        Handler S → Option (Prepared S) → List (Block Value) → S.Tx → Exec (World S.Db Src) S.Tx
    write_one h (some prepared) blocks tx = inspect_err (report "handler") (on_tx prepared tx)
    write_one h none blocks tx = inspect_err (report "handler") (on_tx (h.process_batch blocks) tx)

    -- Phase 2: `handlers.iter().zip(prepared)`, in order on the shared transaction.
    unfoldable pub write_all :
        List (Handler S)
        → List (Option (Prepared S))
        → List (Block Value)
        → S.Tx
        → Exec (World S.Db Src) S.Tx
    write_all (h ∷ hs) (p ∷ ps) blocks tx = do
      tx' ← write_one h p blocks tx
      write_all hs ps blocks tx'
    write_all _ _ blocks tx = pure tx

    -- `h.process_block(block, &mut tx)` for every handler.
    unfoldable pub process_all : List (Handler S) → Block Value → S.Tx → Exec (World S.Db Src) S.Tx
    process_all [] block tx = pure tx
    process_all (h ∷ hs) block tx = do
      tx' ← on_tx (h.process_block block) tx
      process_all hs block tx'

    -- `self.store.set_cursor(&mut tx, block)` for every block.
    unfoldable pub set_cursors : List (Block Value) → S.Tx → Exec (World S.Db Src) S.Tx
    set_cursors [] tx = pure tx
    set_cursors (b ∷ bs) tx = do tx' ← on_tx (S.set_cursor b) tx; set_cursors bs tx'

module _ {Value : Type 0} (p : Processor Value) where
  unfoldable pub commit_block : Block Value → Exec (World p.store.Db p.source.Src) (Unit {0})
  commit_block block = do
    tx ← on_store p.store.begin
    tx' ← process_all p.store p.handlers block tx
    tx'' ← on_tx (p.store.set_cursor block) tx'
    on_store (p.store.commit tx'')

  unfoldable pub commit_batch : List (Block Value) → Exec (World p.store.Db p.source.Src) (Unit {0})
  commit_batch [] = pure tt
  commit_batch (b ∷ bs) = do
    prepared ← inspect_err (report "prepare") (λ w. (prepare_all p.store p.handlers (b ∷ bs), w))
    tx ← on_store p.store.begin
    tx' ← write_all p.store p.handlers prepared (b ∷ bs) tx
    tx'' ← set_cursors p.store (b ∷ bs) tx'
    inspect_err (report "commit") (on_store (p.store.commit tx''))
    notify (on_batch_committed (last_or b bs).id.number (length (b ∷ bs)) (event_count (b ∷ bs)))
