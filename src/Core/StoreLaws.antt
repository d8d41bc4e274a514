-- ===== src/Core/StoreLaws.antt =====
-- The contract of `Store` (crates/subdex-core/src/store.rs), which the engine's theorems assume and
-- the stores' theorems fill. It is about the framework's own rows: what handlers wrote is no part of
-- it. A view says what is committed, and what a transaction would commit.
use subdex.Prelude.{
  ℕ, ◌-◌, ◌<◌, ◌≤◌, u32_max, ◌≡◌, String, List, Option, none, some, ltb, leb, ◌==◌, if◌then◌else◌,
}
use subdex.Core.Error.{SubdexError, ok, err}
use subdex.Core.Types.{BlockId, Block}
use subdex.Core.Traits.{Store, Handler, Prepared}
use subdex.Exec.{Exec}

-- The hash kept for each height.
abbrev pub Rows : Type 0
Rows = ℕ → Option String

-- With `retention` 0 nothing is pruned.
abbrev pub prune_below : ℕ → ℕ → ℕ
prune_below retention number = if retention == 0 then 0 else number - retention

-- The rows after the cursor advances to a block.
abbrev pub advance : ℕ → BlockId → Rows → Rows
advance retention id rows n =
    if n == id.number
    then some id.hash
    else if ltb n (prune_below retention id.number)
    then none
    else rows n

-- The rows after a roll back to a height.
abbrev pub truncate : ℕ → Rows → Rows
truncate height rows n = if leb n height then rows n else none

module _ {Value : Type 0} (S : Store Value) where
  pub record View : Type 1 where
    pub Contents : Type 0
    pub contents : S.Db → Contents
    pub pending : S.Db → S.Tx → Contents
    pub row : Contents → Rows

module _ {Value : Type 0} (S : Store Value) (v : View S) where
  -- What holds of every call, whether it fails or not.
  pub record IsStore (retention : ℕ) : Type 0 where
    pub cursor_keeps : (db : S.Db) → v.contents (S.cursor db).1 ≡ v.contents db
    pub cursor_none :
        (db : S.Db) → (S.cursor db).0 ≡ ok none → (n : ℕ) → v.row (v.contents db) n ≡ none
    pub cursor_some :
        (db : S.Db) (c : BlockId)
        → (S.cursor db).0 ≡ ok (some c)
        → (v.row (v.contents db) c.number ≡ some c.hash)
          × ((n : ℕ) → c.number < n → v.row (v.contents db) n ≡ none)
    pub hash_at_keeps : (h : ℕ) (db : S.Db) → v.contents (S.hash_at h db).1 ≡ v.contents db
    pub hash_at_reads :
        (h : ℕ) (db : S.Db) (o : Option String)
        → (S.hash_at h db).0 ≡ ok o
        → o ≡ v.row (v.contents db) h
    pub begin_keeps : (db : S.Db) → v.contents (S.begin db).1 ≡ v.contents db
    pub begin_opens :
        (db : S.Db) (tx : S.Tx)
        → (S.begin db).0 ≡ ok tx
        → v.pending (S.begin db).1 tx ≡ v.contents db
    pub set_cursor_writes :
        (b : Block Value) (db : S.Db) (tx : S.Tx)
        → b.id.number ≤ u32_max
        → (S.set_cursor b tx).0 ≡ ok tt
        → (n : ℕ)
        → v.row (v.pending db (S.set_cursor b tx).1) n
          ≡ advance retention b.id (v.row (v.pending db tx)) n
    pub commit_applies :
        (tx : S.Tx) (db : S.Db)
        → (S.commit tx db).0 ≡ ok tt
        → v.contents (S.commit tx db).1 ≡ v.pending db tx
    pub commit_fails :
        (tx : S.Tx) (db : S.Db) (e : SubdexError)
        → (S.commit tx db).0 ≡ err e
        → v.contents (S.commit tx db).1 ≡ v.contents db
    pub rollback_applies :
        (h : ℕ) (db : S.Db)
        → h < u32_max
        → (S.rollback_to h db).0 ≡ ok tt
        → (n : ℕ)
        → v.row (v.contents (S.rollback_to h db).1) n ≡ truncate h (v.row (v.contents db)) n
    pub rollback_fails :
        (h : ℕ) (db : S.Db) (e : SubdexError)
        → (S.rollback_to h db).0 ≡ err e
        → v.contents (S.rollback_to h db).1 ≡ v.contents db
    pub backfilled_keeps :
        (db : S.Db) (n : ℕ)
        → v.row (v.contents (S.on_backfill_complete db).1) n ≡ v.row (v.contents db) n

module _ {Value : Type 0} (S : Store Value) where
  -- The backend is up: no call fails.
  pub record IsAvailable : Type 0 where
    pub cursor_answers : (db : S.Db) → (o : Option BlockId) × ((S.cursor db).0 ≡ ok o)
    pub hash_at_answers : (h : ℕ) (db : S.Db) → (o : Option String) × ((S.hash_at h db).0 ≡ ok o)
    pub begin_answers : (db : S.Db) → (tx : S.Tx) × ((S.begin db).0 ≡ ok tx)
    pub set_cursor_answers : (b : Block Value) (tx : S.Tx) → (S.set_cursor b tx).0 ≡ ok tt
    pub commit_answers : (tx : S.Tx) (db : S.Db) → (S.commit tx db).0 ≡ ok tt
    pub rollback_answers : (h : ℕ) (db : S.Db) → (S.rollback_to h db).0 ≡ ok tt
    pub backfilled_answers : (db : S.Db) → (S.on_backfill_complete db).0 ≡ ok tt

-- What a user's handler is asked for: its writes stay off the framework's own table.
module _ {Value : Type 0} (S : Store Value) (v : View S) where
  abbrev KeepsRows : Exec S.Tx (Unit {0}) → Type 0
  KeepsRows m = (db : S.Db) (tx : S.Tx) → v.row (v.pending db (m tx).1) ≡ v.row (v.pending db tx)

  pub record Respects (h : Handler S) : Type 0 where
    pub block_keeps : (b : Block Value) → KeepsRows (h.process_block b)
    pub batch_keeps : (bs : List (Block Value)) → KeepsRows (h.process_batch bs)
    pub write_keeps :
        (bs : List (Block Value)) (m : Prepared S) → h.prepare bs ≡ ok (some m) → KeepsRows m

module _ {Value : Type 0} (S : Store Value) where
  -- No call of the handler fails.
  pub record Succeeds (h : Handler S) : Type 0 where
    pub block_works : (b : Block Value) (tx : S.Tx) → (h.process_block b tx).0 ≡ ok tt
    pub batch_works : (bs : List (Block Value)) (tx : S.Tx) → (h.process_batch bs tx).0 ≡ ok tt
    pub prepare_works :
        (bs : List (Block Value)) → (o : Option (Prepared S)) × (h.prepare bs ≡ ok o)
    pub write_works :
        (bs : List (Block Value)) (m : Prepared S)
        → h.prepare bs ≡ ok (some m)
        → (tx : S.Tx) → (m tx).0 ≡ ok tt
