-- ===== src/Testkit.antt =====
-- crates/subdex/src/testkit.rs but for MemStore: `RecordingHandler`, `ScriptedSource` and the test
-- blocks. What a handler shares through its `Arc`s is a state beside the store's; the sleep of
-- `next_finalized` at the end of the script is left out.
pub mod Scripted
use subdex.Prelude.{
  ℕ, zero, suc, ◌+◌, ◌-◌, ◌*◌, ◌/◌, ◌%◌, String, ◌<>◌, Bool, true, false, ◌&&◌, Option, none, some,
  List, [], ◌∷◌, ◌++◌, map, last_or, leb, ltb, ◌==◌, if◌then◌else◌, decimal,
}
use subdex.Core.Error.{SubdexError, ok}
use subdex.Core.Types.{Block, BlockBatch}
use subdex.Core.Traits.{DataSource}
use subdex.Exec.{Exec, pure, raise, ◌>>=◌, ◌>>◌}

pub record RecordingHandler : Type 0 where
  pub seen : List ℕ
  pub fail_at : Option ℕ
  pub batch_calls : ℕ

abbrev pub new_recording : RecordingHandler
new_recording = record { seen = []; fail_at = none; batch_calls = 0 }

abbrev pub failing_at : ℕ → RecordingHandler
failing_at height = record new_recording { fail_at = some height }

unfoldable pub fails_at : Option ℕ → ℕ → Bool
fails_at none height = false
fails_at (some h) height = height == h

module _ {Value : Type 0} where
  unfoldable pub record_block : Block Value → Exec RecordingHandler (Unit {0})
  record_block block h =
      if fails_at h.fail_at block.id.number
      then raise (SubdexError.handler ("intentional failure at height " <> decimal block.id.number))
          h
      else pure tt (record h { seen = h.seen ++ (block.id.number ∷ []) })

  unfoldable pub record_blocks : List (Block Value) → Exec RecordingHandler (Unit {0})
  record_blocks [] = pure tt
  record_blocks (b ∷ bs) = record_block b >> record_blocks bs

  unfoldable pub record_batch : List (Block Value) → Exec RecordingHandler (Unit {0})
  record_batch blocks h = record_blocks blocks (record h { batch_calls = h.batch_calls + 1 })

  -- `self.blocks.last().map(|b| b.id.number).unwrap_or(0)`
  unfoldable pub last_number : List (Block Value) → ℕ
  last_number [] = 0
  last_number (b ∷ bs) = (last_or b bs).id.number

  unfoldable pub in_window : ℕ → ℕ → Block Value → Bool
  in_window from to b = leb from b.id.number && leb b.id.number to

  -- The filter of `fetch_batch`.
  unfoldable pub window : ℕ → ℕ → List (Block Value) → List (Block Value)
  window from to [] = []
  window from to (b ∷ bs) =
      let rest = window from to bs in if in_window from to b then b ∷ rest else rest

  -- `self.blocks[idx]`, if it is there.
  unfoldable pub block_at : List (Block Value) → ℕ → Option (Block Value)
  block_at [] idx = none
  block_at (b ∷ bs) zero = some b
  block_at (b ∷ bs) (suc idx) = block_at bs idx

  unfoldable pub next_scripted : Option (Block Value) → Exec ℕ (BlockBatch Value)
  next_scripted none idx = pure (record { blocks = [] }) idx
  next_scripted (some b) idx = pure (record { blocks = b ∷ [] }) (idx + 1)

  -- The state is `next_idx`.
  abbrev pub scripted : List (Block Value) → DataSource Value
  scripted blocks = record {
    Src = ℕ;
    finalized_head = pure (last_number blocks);
    fetch_batch = λ from to. pure (record { blocks = window from to blocks });
    next_finalized = λ idx. next_scripted (block_at blocks idx) idx;
    name = "scripted";
  }

-- The digits of `{:x}`, with fuel for more of them than there are.
abbrev hex_digits : List String
hex_digits =
    "0" ∷ "1" ∷ "2" ∷ "3" ∷ "4" ∷ "5" ∷ "6" ∷ "7" ∷ "8" ∷ "9" ∷ "a" ∷ "b" ∷ "c" ∷ "d" ∷ "e" ∷ "f"
    ∷ []

unfoldable pub hex_digit : List String → ℕ → String
hex_digit [] n = ""
hex_digit (d ∷ ds) zero = d
hex_digit (d ∷ ds) (suc n) = hex_digit ds n

unfoldable pub hex_on : ℕ → ℕ → String
hex_on zero n = ""
hex_on (suc fuel) n =
    let rest = hex_on fuel (n / 16) in
    let digit = hex_digit hex_digits (n % 16) in if ltb n 16 then digit else rest <> digit

unfoldable pub hash_of_height : ℕ → String
hash_of_height n = "0x" <> hex_on (suc n) n

unfoldable pub test_parent : ℕ → String
test_parent zero = "0x00"
test_parent (suc n) = hash_of_height n

module _ {Value : Type 0} where
  abbrev pub test_block : ℕ → String → String → Block Value
  test_block number hash parent = record {
    id = record { number = number; hash = hash };
    parent_hash = parent;
    timestamp = some (1700000000000 + number);
    spec_version = 1;
    finalized = true;
    extrinsics = [];
    events = [];
  }

  -- The block of `test_chain` at a height.
  abbrev pub test_link : ℕ → Block Value
  test_link n = test_block n (hash_of_height n) (test_parent n)

  unfoldable pub test_chain : ℕ → ℕ → List (Block Value)
  test_chain start zero = []
  test_chain start (suc count) = test_link start ∷ test_chain (suc start) count
