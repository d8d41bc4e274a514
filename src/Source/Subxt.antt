-- ===== src/Source/Subxt.antt =====
-- `SubxtSource` of crates/subdex-source/src/source.rs. The RPC client is a parameter; so is the
-- decoding of a block (`map_block`), which stands in `fetch_one` beside the client's call. So is what
-- the futures crate makes of a stream of requests, some of them in flight at once.
pub mod Parts
pub mod Decode
pub mod Strict
pub mod Node
use subdex.Prelude.{
  ℕ, zero, suc, ◌+◌, ◌-◌, ◌<◌, ◌≤◌, min, u32_max, ◌≡◌, refl, ap, ◌∙◌, arith, List, [], ◌∷◌, All,
  map, ltb, Bool-cases, inl, inr, if◌then◌else◌, saturating_add,
}
use subdex.Core.Error.{ok}
use subdex.Core.Types.{Block, BlockBatch}
use subdex.Core.Traits.{DataSource}
use subdex.Core.Chain.{Serves, segment}
use subdex.Exec.{Exec, pure, ◌>>=◌}
use subdex.Exec.Runs.{Runs, Runs-pure, Runs-halves, Runs-bind}
use subdex.Source.Config.{SourceConfig}

module _ (Value : Type 0) where
  -- The calls with their retries; `next` is the next batch of the finalized stream.
  pub record Client : Type 1 where
    pub Net : Type 0
    pub current_height : Exec Net ℕ
    pub fetch_one : ℕ → Exec Net (Block Value)
    pub next : Exec Net (BlockBatch Value)

-- `stream::iter(heights).map(request).buffered(limit).try_collect()` of the futures crate.
abbrev pub Buffered : Type 0 → Type 0 → Type 0
Buffered Net A = ℕ → (ℕ → Exec Net A) → List ℕ → Exec Net (List A)

-- With at least one request in flight, requests that all succeed, in whatever state of the network one
-- finds itself, give their values in the order of the stream.
pub record IsBuffered {Net A : Type 0} (buffered : Buffered Net A) : Type 0 where
  pub collects :
      (limit : ℕ) (request : ℕ → Exec Net A) (value : ℕ → A) (heights : List ℕ)
      → 0 < limit
      → All (λ h. (s : Net) → (request h s).0 ≡ ok (value h)) heights
      → (s : Net) → (buffered limit request heights s).0 ≡ ok (map value heights)

-- `from..=end`, by its length.
unfoldable pub heights_from : ℕ → ℕ → List ℕ
heights_from from zero = []
heights_from from (suc count) = from ∷ heights_from (suc from) count

module _ {Value : Type 0} (client : Client Value)
    (buffered : Buffered client.Net (Block Value)) where
  unfoldable pub fetch_span : SourceConfig → ℕ → ℕ → Exec client.Net (List (Block Value))
  fetch_span config from count =
      buffered config.concurrency client.fetch_one (heights_from from count)

  -- `to.min(from.saturating_add(batch_size.saturating_sub(1)))`
  abbrev pub span_end : SourceConfig → ℕ → ℕ → ℕ
  span_end config from to = min to (saturating_add from (config.batch_size - 1))

  unfoldable pub fetch_batch : SourceConfig → ℕ → ℕ → Exec client.Net (BlockBatch Value)
  fetch_batch config from to = if ltb to from then pure (record { blocks = [] }) else (do
    blocks ← fetch_span config from (suc (span_end config from to - from))
    pure (record { blocks = blocks }))

  abbrev pub subxt_source : SourceConfig → DataSource Value
  subxt_source config = record {
    Src = client.Net;
    finalized_head = client.current_height;
    fetch_batch = fetch_batch config;
    next_finalized = client.next;
    name = "subxt-rpc";
  }

map-heights_from :
    {Value : Type 0} (chain : ℕ → Block Value) (from count : ℕ)
    → map chain (heights_from from count) ≡ segment chain from count
unfolding heights_from
map-heights_from chain from zero = refl
map-heights_from chain from (suc count) =
    ap (λ bs. chain from ∷ bs) (map-heights_from chain (suc from) count)

All-heights_from :
    (P : ℕ → Type 0) (head from count : ℕ)
    → ((n : ℕ) → n ≤ head → P n)
    → from + count ≤ suc head
    → All P (heights_from from count)
unfolding heights_from
All-heights_from P head from zero p le = tt
All-heights_from P head from (suc count) p le =
    (p from (omega arith), All-heights_from P head (suc from) count p (omega arith))

module _ {Value : Type 0} (client : Client Value) (buffered : Buffered client.Net (Block Value))
    (in_order : IsBuffered buffered) (chain : ℕ → Block Value) (head : ℕ)
    (known : (n : ℕ) (s : client.Net) → n ≤ head → (client.fetch_one n s).0 ≡ ok (chain n))
    (config : SourceConfig) (busy : 0 < config.concurrency) where
  fetch_span-segment :
      (from count : ℕ) (s : client.Net)
      → from + count ≤ suc head
      → Runs
          (fetch_span client buffered config from count s)
          (λ bs _. bs ≡ segment chain from count)
  unfolding fetch_span
  fetch_span-segment from count s le =
      Runs-halves {Q = λ bs _. bs ≡ segment chain from count} _
        (in_order.collects config.concurrency client.fetch_one chain (heights_from from count) busy
          (All-heights_from (λ n. (u : client.Net) → (client.fetch_one n u).0 ≡ ok (chain n)) head
            from count (λ n b u. known n u b) le)
          s)
        (map-heights_from chain from count)

  fetch_batch-Runs :
      (from to : ℕ) (s : client.Net)
      → from ≤ to
      → from + (span_end client buffered config from to - from) ≤ head
      → Runs (fetch_batch client buffered config from to s) (λ b _. b ≡ record {
        blocks = segment chain from (suc (span_end client buffered config from to - from));
      })
  unfolding fetch_batch
  fetch_batch-Runs from to s lo hi = elim (Bool-cases (ltb to from)) [
    | inl b ↦ absurd (ground arith)
    | inr b ↦ rw b (
        Runs-bind _ _
          (fetch_span-segment from (suc (span_end client buffered config from to - from)) s
            (omega arith))
          λ bs u e. Runs-pure (record { blocks = bs }) u (ap (λ x. record { blocks = x }) e))
  ]

  -- Over a client that gives the chain's block at every height up to a head that fits in 32 bits, with
  -- at least one request in flight, `SubxtSource` serves the chain: each batch starts at the height
  -- asked for, has a block, is in order, and does not pass the end asked for.
  pub subxt_source-Serves :
      ((s : client.Net) → (client.current_height s).0 ≡ ok head)
      → head ≤ u32_max
      → Serves (subxt_source client buffered config) chain head
  unfolding saturating_add
  subxt_source-Serves at fits = record {
    head_known = at;
    fetches = λ from to s lo hi.
        let h = fetch_batch-Runs from to s lo (omega arith) in
        let within : span_end client buffered config from to - from ≤ to - from = omega arith in
        (span_end client buffered config from to - from, within, ap (λ x. x.0) h.eq ∙ ap ok h.post);
  }
