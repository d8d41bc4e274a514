-- ===== src/Core/Chain.antt =====
-- The canonical chain that a source serves, as the traits' documentation describes it.
use subdex.Prelude.{ℕ, zero, suc, ◌-◌, ◌≤◌, ◌≡◌, List, [], ◌∷◌}
use subdex.Core.Error.{ok}
use subdex.Core.Types.{Block}
use subdex.Core.Traits.{DataSource}

module _ {Value : Type 0} where
  -- Numbered by height, each block naming its parent's hash.
  pub record IsChain (chain : ℕ → Block Value) : Type 0 where
    pub numbered : (n : ℕ) → (chain n).id.number ≡ n
    pub linked : (n : ℕ) → (chain (suc n)).parent_hash ≡ (chain n).id.hash

  -- The blocks `[from, from + count)`.
  abbrev pub segment : (ℕ → Block Value) → ℕ → ℕ → List (Block Value)
  segment chain from zero = []
  segment chain from (suc count) = chain from ∷ segment chain (suc from) count

  -- `finalized_head` gives the head, and `fetch_batch` up to it a batch in chain order that starts
  -- at `from`, has a block, and does not pass `to` ("may return fewer than requested").
  pub record Serves (D : DataSource Value) (chain : ℕ → Block Value) (head : ℕ) : Type 0 where
    pub head_known : (s : D.Src) → (D.finalized_head s).0 ≡ ok head
    pub fetches :
        (from to : ℕ) (s : D.Src)
        → from ≤ to
        → to ≤ head
        → (k : ℕ) × (k ≤ to - from)
          × ((D.fetch_batch from to s).0 ≡ ok (record { blocks = segment chain from (suc k) }))
