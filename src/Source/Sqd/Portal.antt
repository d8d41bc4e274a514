-- ===== src/Source/Sqd/Portal.antt =====
-- `SqdPortalSource` over a portal that keeps its dataset: it serves the chain, and retries hide failures.
use subdex.Prelude.{
  ℕ, zero, suc, ◌+◌, ◌-◌, ◌≤◌, List, [], ◌∷◌, map, ltb, saturating_add, u32_max, ◌≡◌, refl, ap, ◌∙◌,
  subst, inl, inr, Bool-cases, arith,
}
use subdex.Core.Error.{Result, ok, err}
use subdex.Core.Types.{Block}
use subdex.Core.Chain.{Serves, segment}
use subdex.Exec.{pure, continue}
use subdex.Source.Retry.Recovers.{Recovers, retried, retried-Recovers}
use subdex.Source.Value.{Value}
use subdex.Source.Sqd.Mapping.{PortalBlock, map_block}
use subdex.Source.Sqd.{
  Libraries, SqdPortalSource, once_head, once_range, range_end, mapped, fetch_batch, sqd_source,
}

-- The portal's blocks `[from, from + count)`.
abbrev pub portal_segment : (ℕ → PortalBlock) → ℕ → ℕ → List PortalBlock
portal_segment dataset from zero = []
portal_segment dataset from (suc count) = dataset from ∷ portal_segment dataset (suc from) count

module _ (lib : Libraries) (src : SqdPortalSource) (dataset : ℕ → PortalBlock) (head : ℕ) where
  -- Requests for the head and for ranges up to it fail only in ways that are worth a retry, and no
  -- more often in a row than the source retries.
  pub record IsPortal : Type 0 where
    pub heads : Recovers src.config.retry.max_retries (once_head lib src) head
    pub ranges :
        (from count : ℕ)
        → from + count ≤ head
        → Recovers src.config.retry.max_retries
            (once_range lib src from (from + count))
            (portal_segment dataset from (suc count))

  abbrev pub chain : ℕ → Block Value
  chain n =
      map_block lib.hex_decode lib.blake2b_512 lib.to_base58 (dataset n) src.config.ss58_prefix

  map-portal_segment :
      (from count : ℕ)
      → map
          (λ pb. map_block lib.hex_decode lib.blake2b_512 lib.to_base58 pb src.config.ss58_prefix)
          (portal_segment dataset from count)
        ≡ segment chain from count
  map-portal_segment from zero = refl
  map-portal_segment from (suc count) =
      ap (λ x. chain from ∷ x) (map-portal_segment (suc from) count)

  continue-mapped :
      (r : Result (List PortalBlock) × lib.http.Net) (bs : List PortalBlock)
      → r.0 ≡ ok bs
      → (continue r (λ x. pure (mapped lib src x))).0 ≡ ok (mapped lib src bs)
  unfolding continue
  continue-mapped (ok x, s) bs e =
      ap (λ r. elim r [ ok y ↦ ok (mapped lib src y) | err x ↦ err x ]) e
  continue-mapped (err x, s) bs e = absurd cc

  retried-range :
      (from to : ℕ) (s : lib.http.Net)
      → IsPortal
      → head ≤ u32_max
      → from ≤ to
      → to ≤ head
      → (retried src.config.retry lib.clock
          (once_range lib src from (range_end lib src from to))
          s).0
        ≡ ok (portal_segment dataset from (suc (range_end lib src from to - from)))
  unfolding saturating_add
  retried-range from to s portal fits lo hi =
      let count = range_end lib src from to - from in
      let same : from + count ≡ range_end lib src from to = omega arith in
      subst
        (λ end.
          (retried src.config.retry lib.clock (once_range lib src from end) s).0
          ≡ ok (portal_segment dataset from (suc count)))
        same
        (retried-Recovers src.config.retry lib.clock _ _ (portal.ranges from count (omega arith)) s)

  fetch_batch-segment :
      (from to : ℕ) (s : lib.http.Net)
      → IsPortal
      → head ≤ u32_max
      → from ≤ to
      → to ≤ head
      → (fetch_batch lib src from to s).0
        ≡ ok (record { blocks = segment chain from (suc (range_end lib src from to - from)) })
  unfolding fetch_batch
  fetch_batch-segment from to s portal fits lo hi = elim (Bool-cases (ltb to from)) [
    | inl b ↦ absurd (ground arith)
    | inr b ↦ rw b (
        continue-mapped _ _ (retried-range from to s portal fits lo hi)
        ∙ ap (λ x. ok (record { blocks = x }))
            (map-portal_segment from (suc (range_end lib src from to - from))))
  ]

  -- Over a portal that gives its dataset's blocks of any range up to a head, and fails, transiently, at most
  -- `max_retries` times in a row, `SqdPortalSource` serves the chain of the mapped blocks up to that
  -- head: no failure shows, each batch starts at the height asked for, has a block, is in order, and
  -- does not pass the end asked for.
  pub sqd_source-Serves : IsPortal → head ≤ u32_max → Serves (sqd_source lib src) chain head
  unfolding saturating_add
  sqd_source-Serves portal fits = record {
    head_known =
        λ s. retried-Recovers src.config.retry lib.clock (once_head lib src) head portal.heads s;
    fetches = λ from to s lo hi.
        let within : range_end lib src from to - from ≤ to - from = omega arith in
        (range_end lib src from to - from, within, fetch_batch-segment from to s portal fits lo hi);
  }
