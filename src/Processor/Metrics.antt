-- ===== src/Processor/Metrics.antt =====
-- `PrometheusObserver` of crates/subdex/src/metrics.rs. The series are a record: gauges hold a value,
-- counters a total, and of a histogram the values recorded. Durations are not in `Observation`.
use mathlib.Core.List.{foldl}
use subdex.Prelude.{ℕ, ◌+◌, ◌-◌, String, List, [], ◌∷◌, ◌++◌, ◌≡◌, refl, arith}
use subdex.Core.Traits.{Observation, on_batch_committed, on_reorg, on_head, on_fetch, on_error}

-- The observer's own state, and the series that it publishes.
pub record Metrics : Type 0 where
  pub cursor : ℕ
  pub head : ℕ
  pub cursor_height : ℕ
  pub finalized_head : ℕ
  pub head_lag : ℕ
  pub blocks_processed : ℕ
  pub events_decoded : ℕ
  pub reorgs : ℕ
  pub reorg_depth : List ℕ
  pub errors : List String

abbrev new_observer : Metrics
new_observer = record {
  cursor = 0;
  head = 0;
  cursor_height = 0;
  finalized_head = 0;
  head_lag = 0;
  blocks_processed = 0;
  events_decoded = 0;
  reorgs = 0;
  reorg_depth = [];
  errors = [];
}

unfoldable pub publish_lag : Metrics → Metrics
publish_lag m = record m { head_lag = m.head - m.cursor }

-- The hooks.
unfoldable pub observe_metric : Metrics → Observation → Metrics
unfolding publish_lag
observe_metric m (on_batch_committed cursor count events) = publish_lag (record m {
  cursor = cursor;
  cursor_height = cursor;
  blocks_processed = m.blocks_processed + count;
  events_decoded = m.events_decoded + events;
})
observe_metric m (on_reorg fork depth) = record m {
  reorgs = m.reorgs + 1;
  reorg_depth = m.reorg_depth ++ (depth ∷ []);
}
observe_metric m (on_head head) = publish_lag (record m { head = head; finalized_head = head })
observe_metric m (on_fetch count) = m
observe_metric m (on_error context error) = record m { errors = m.errors ++ (context ∷ []) }

-- The published lag is that of the published head and cursor.
record IsCurrent (m : Metrics) : Type 0 where
  lag : m.head_lag ≡ m.finalized_head - m.cursor_height
  same_cursor : m.cursor_height ≡ m.cursor
  same_head : m.finalized_head ≡ m.head

observe_metric-IsCurrent :
    (m : Metrics) (o : Observation) → IsCurrent m → IsCurrent (observe_metric m o)
unfolding observe_metric publish_lag
observe_metric-IsCurrent m (on_batch_committed c k e) h = record {
  lag = omega (arith, h.same_head);
  same_cursor = refl;
  same_head = h.same_head;
}
observe_metric-IsCurrent m (on_reorg f d) h = record {
  lag = h.lag;
  same_cursor = h.same_cursor;
  same_head = h.same_head;
}
observe_metric-IsCurrent m (on_head n) h = record {
  lag = omega (arith, h.same_cursor);
  same_cursor = h.same_cursor;
  same_head = refl;
}
observe_metric-IsCurrent m (on_fetch k) h = h
observe_metric-IsCurrent m (on_error c e) h = record {
  lag = h.lag;
  same_cursor = h.same_cursor;
  same_head = h.same_head;
}

-- The sum of the blocks of the committed batches.
abbrev committed : List Observation → ℕ
committed [] = 0
committed (on_batch_committed c k e ∷ os) = k + committed os
committed (on_reorg f d ∷ os) = committed os
committed (on_head n ∷ os) = committed os
committed (on_fetch k ∷ os) = committed os
committed (on_error c e ∷ os) = committed os

observed :
    (os : List Observation) (m : Metrics)
    → IsCurrent m
    → IsCurrent (foldl observe_metric m os)
      × ((foldl observe_metric m os).blocks_processed ≡ m.blocks_processed + committed os)
unfolding observe_metric publish_lag
observed [] m h = (h, omega arith)
observed (on_batch_committed c k e ∷ os) m h =
    let rest = observed os _ (observe_metric-IsCurrent m (on_batch_committed c k e) h) in
    (rest.0, omega (arith, rest.1))
observed (on_reorg f d ∷ os) m h = observed os _ (observe_metric-IsCurrent m (on_reorg f d) h)
observed (on_head n ∷ os) m h = observed os _ (observe_metric-IsCurrent m (on_head n) h)
observed (on_fetch k ∷ os) m h = observed os _ (observe_metric-IsCurrent m (on_fetch k) h)
observed (on_error c e ∷ os) m h = observed os _ (observe_metric-IsCurrent m (on_error c e) h)

-- After any observations, the published lag is the published head less the published cursor, and the
-- counter of blocks is the sum over the committed batches.
observe_metric-foldl :
    (os : List Observation)
    → IsCurrent (foldl observe_metric new_observer os)
      × ((foldl observe_metric new_observer os).blocks_processed ≡ committed os)
observe_metric-foldl os =
    let all =
      observed os new_observer (record { lag = refl; same_cursor = refl; same_head = refl }) in
    (all.0, omega (arith, all.1))
