-- ===== src/Tests/Doubles.antt =====
-- Small runs of the test doubles.
use subdex.Prelude.{◌≡◌, refl, some, List, [], ◌∷◌, decimal}
use subdex.Core.Error.{SubdexError, err}
use subdex.Core.Types.{Block}
use subdex.Exec.{continue}
use subdex.Testkit.{
  failing_at, fails_at, record_block, record_blocks, record_batch, test_chain, test_parent,
  hash_of_height, hex_on, hex_digit,
}
use subdex.Tests.Fixtures.{Nothing}

hash_255 : hash_of_height 255 ≡ "0xff"
unfolding hash_of_height hex_on hex_digit
hash_255 = refl

abbrev three : List (Block Nothing)
three = test_chain 4 3

-- A handler that fails at height 6 has seen what came before it.
fails_at_6 : record_batch three (failing_at 6) ≡ (
  err (SubdexError.handler "intentional failure at height 6"),
  record { seen = 4 ∷ 5 ∷ []; fail_at = some 6; batch_calls = 1 },
)
unfolding record_batch record_blocks record_block fails_at continue decimal test_chain test_parent
    hash_of_height
fails_at_6 = refl
