-- ===== src/Source/Subxt/Node.antt =====
-- `SubxtSource` of crates/subdex-source/src/source.rs over a node: each call with its retries, and the
-- stored subscription to finalized blocks. The node and its calls are parameters.
use subdex.Prelude.{
  ℕ, ◌%◌, ◌^◌, ◌<◌, ◌≤◌, u32_max, String, ◌<>◌, Bool, true, Option, none, some, List, [], ◌∷◌,
  decimal, Attempt,
}
use subdex.Core.Error.{SubdexError, Result, ok, err}
use subdex.Core.Types.{Block, BlockBatch}
use subdex.Core.Chain.{Serves}
use subdex.Exec.{Exec, pure, raise, ◌>>=◌}
use subdex.Source.Config.{SourceConfig}
use subdex.Source.Retry.Recovers.{Recovers, retried, retried-Recovers}
use subdex.Source.Value.{Value}
use subdex.Source.Subxt.{Client, Buffered, IsBuffered, subxt_source, subxt_source-Serves}
use subdex.Source.Subxt.Decode.{Request, At, Decoding, ask, map_block}

-- The state after a call is the node as the same request finds it next, after whatever other requests
-- in flight did to it.
pub record Node : Type 1 where
  pub Net : Type 0
  pub Stream : Type 0
  pub Found : Type 0
  pub at_block : ℕ → Request Net (At Net)
  pub at_current_block : Request Net (At Net)
  pub stream_blocks : Request Net Stream
  pub next : Stream → Net → (Option (Attempt Found) × Stream) × Net
  pub at : Found → Request Net (At Net)

-- What the source keeps: the network, what was counted, and the subscription.
pub record Held (node : Node) : Type 0 where
  pub decoding : Decoding node.Net
  pub stream : Option node.Stream

module _ {node : Node} where
  unfoldable pub put_back :
      {A : Type 0} → Option node.Stream → Result A × Decoding node.Net → Result A × Held node
  put_back stream (r, d) = (r, record { decoding = d; stream = stream })

  abbrev pub decoding : {A : Type 0} → Exec (Decoding node.Net) A → Exec (Held node) A
  decoding m w = put_back w.stream (m w.decoding)

module _ (node : Node) (hex_encode : List ℕ → String) (blake2b_512 : List ℕ → List ℕ)
    (to_base58 : List ℕ → String) (clock : ℕ → ℕ) (config : SourceConfig) where
  abbrev pub mapped : At node.Net → Bool → Exec (Held node) (Block Value)
  mapped at finalized = decoding (
      map_block hex_encode blake2b_512 to_base58 at finalized config.selection config.ss58_prefix
        config.strict)

  -- One attempt of `fetch_one`.
  unfoldable pub fetch_once : ℕ → Bool → Exec (Held node) (Block Value)
  fetch_once height finalized = do
    at ← decoding (
        ask (λ e. SubdexError.source ("at_block " <> (decimal height <> (": " <> e))))
          (node.at_block height))
    mapped at finalized

  abbrev pub fetch_one : ℕ → Bool → Exec (Held node) (Block Value)
  fetch_one height finalized = retried config.retry clock (fetch_once height finalized)

  unfoldable pub head_once : Exec (Held node) ℕ
  head_once = do
    at ← decoding (ask (λ e. SubdexError.source ("finalized head: " <> e)) node.at_current_block)
    pure (at.number % 2 ^ 32)

  -- The stream, subscribed where there is none.
  unfoldable pub subscribed : Option node.Stream → Exec (Held node) node.Stream
  subscribed (some stream) = pure stream
  subscribed none =
      decoding (ask (λ e. SubdexError.source ("subscribe finalized: " <> e)) node.stream_blocks)

  -- `stream.next().await` on the stored stream.
  abbrev pub pull : node.Stream → Exec (Held node) (Option (Attempt node.Found))
  pull stream w =
      let r = node.next stream w.decoding.net in
      (
        ok r.0.0,
        record {
          decoding = record { net = r.1; failures = w.decoding.failures };
          stream = some r.0.1;
        },
      )

  unfoldable pub on_pulled : Option (Attempt node.Found) → Exec (Held node) (BlockBatch Value)
  on_pulled (some (Attempt.got found)) = do
    at ← decoding (ask (λ e. SubdexError.source ("at finalized block: " <> e)) (node.at found))
    block ← mapped at true
    pure (record { blocks = block ∷ [] })
  on_pulled (some (Attempt.lost e)) = raise (SubdexError.source ("finalized stream: " <> e))
  on_pulled none = pure (record { blocks = [] })

  unfoldable pub next_finalized_once : Exec (Held node) (BlockBatch Value)
  next_finalized_once w = (subscribed w.stream >>= λ stream. pull stream >>= on_pulled) w

  -- `self.finalized_stream.lock().await.take()` where the attempt failed.
  unfoldable pub reset_on_error : {A : Type 0} → Result A × Held node → Result A × Held node
  reset_on_error (ok a, w) = (ok a, w)
  reset_on_error (err e, w) = (err e, record w { stream = none })

  abbrev pub next_attempt : Exec (Held node) (BlockBatch Value)
  next_attempt w = reset_on_error (next_finalized_once w)

  abbrev pub node_client : Client Value
  node_client = record {
    Net = Held node;
    current_height = retried config.retry clock head_once;
    fetch_one = λ height. fetch_one height true;
    next = retried config.retry clock next_attempt;
  }

  module _ (chain : ℕ → Block Value) (head : ℕ) where
    pub record IsNode : Type 0 where
      pub heads : Recovers config.retry.max_retries head_once head
      pub blocks :
          (n : ℕ) → n ≤ head → Recovers config.retry.max_retries (fetch_once n true) (chain n)

    -- Over a node that gives the chain's block at every height up to a head that fits in 32 bits, and
    -- fails, transiently, at most `max_retries` times in a row for one request, with at least one request
    -- in flight and values collected in the order of the requests,
    -- `SubxtSource` serves the chain: no
    -- failure shows, each batch starts at the height asked for, has a block, is in order, and does not
    -- pass the end asked for.
    pub node_source-Serves :
        IsNode
        → (buffered : Buffered (Held node) (Block Value)) → IsBuffered buffered
        → 0 < config.concurrency
        → head ≤ u32_max
        → Serves (subxt_source node_client buffered config) chain head
    node_source-Serves h buffered in_order busy fits =
        subxt_source-Serves node_client buffered in_order chain head
          (λ n s le. retried-Recovers config.retry clock _ (chain n) (h.blocks n le) s) config busy
          (λ s. retried-Recovers config.retry clock _ head h.heads s) fits
