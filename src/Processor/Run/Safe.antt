-- ===== src/Processor/Run/Safe.antt =====
-- What a source that may fail still promises, and the rows that an interrupted `backfill` may leave.
use subdex.Prelude.{
  ℕ, suc, ◌+◌, ◌≤◌, ◌<◌, max, ◌≡◌, ◌⊎◌, sym, String, none, some, ltb, ltb→lt, arith, tests, inl,
  inr, Bool-cases, u32_max,
}
use subdex.Core.Error.{SubdexError, ok, err, Result-cases}
use subdex.Core.Types.{Block, BlockBatch}
use subdex.Core.Traits.{DataSource}
use subdex.Core.Chain.{segment}
use subdex.Core.StoreLaws.{Rows, prune_below}
use subdex.Exec.{Exec}
use subdex.Exec.Ends.{Ends}
use subdex.Processor.{World, on_source}
use subdex.Processor.Reorg.Fork.{Tracks}

-- A source that may fail, and that gives nothing but the chain's blocks: from the height asked for,
-- and not past the end asked for.
pub record IsTruthful {Value : Type 0} (D : DataSource Value) (chain : ℕ → Block Value)
    : Type 0 where
  pub head_fits : (s : D.Src) (n : ℕ) → (D.finalized_head s).0 ≡ ok n → n < u32_max
  pub fetches_only :
      (from to : ℕ) (s : D.Src) (batch : BlockBatch Value)
      → from ≤ to
      → (D.fetch_batch from to s).0 ≡ ok batch
      → (k : ℕ) × (from + k ≤ suc to) × (batch ≡ record { blocks = segment chain from k })

-- The rows are the chain's without a gap, from a height that the retention explains to `hi` or above.
pub record IsSafe {Value : Type 0} (chain : ℕ → Block Value) (retention lo hi : ℕ) (r : Rows)
    : Type 0 where
  pub lowest : ℕ
  pub next : ℕ
  pub grows : hi ≤ next
  pub explained : lowest ≤ max lo (prune_below retention next)
  pub tracks : Tracks chain lowest next next r

pub Ends-on_source :
    {Db Src A : Type 0} (F : World Db Src → Type 0) (Q : A → World Db Src → Type 0) (m : Exec Src A)
    (w : World Db Src)
    → ((a : A) → (m w.src).0 ≡ ok a → Q a (record w { src = (m w.src).1 }))
    → ((e : SubdexError) → (m w.src).0 ≡ err e → F (record w { src = (m w.src).1 }))
    → Ends Q F (on_source m w)
unfolding on_source Ends
Ends-on_source F Q m w q f = elim (Result-cases (m w.src).0) [
  | inl (a, h) ↦ rw h (q a h)
  | inr (e, h) ↦ rw h (f e h)
]

module _ {Value : Type 0} (chain : ℕ → Block Value) (retention : ℕ) where
  pub Tracks-IsSafe :
      (lo hi : ℕ) (r : Rows) → Tracks chain lo hi hi r → IsSafe chain retention lo hi r
  Tracks-IsSafe lo hi r t = record {
    lowest = lo;
    next = hi;
    grows = omega arith;
    explained = omega arith;
    tracks = t;
  }

  pub IsSafe-later :
      (lo hi lo' hi' : ℕ) (r : Rows)
      → hi ≤ hi'
      → lo' ≤ max lo (prune_below retention hi')
      → IsSafe chain retention lo' hi' r
      → IsSafe chain retention lo hi r
  IsSafe-later lo hi lo' hi' r le low s = record {
    lowest = s.lowest;
    next = s.next;
    grows = omega (arith, s.grows);
    explained = ground (arith, s.grows, s.explained);
    tracks = s.tracks;
  }

  -- Where the rows end is where the greatest one that is kept says.
  pub none-ends :
      (lo hi start : ℕ) (r : Rows)
      → Tracks chain lo hi hi r
      → (lo < hi) ⊎ (hi ≡ start)
      → ((n : ℕ) → r n ≡ none)
      → start ≡ hi
  none-ends lo hi start r t (inr e) empty = sym e
  none-ends lo hi start r t (inl lt) empty = absurd (cc (t.shared lo (omega arith) lt, empty lo))

  pub some-ends :
      (lo hi n : ℕ) {h : String} (r : Rows)
      → Tracks chain lo hi hi r
      → r n ≡ some h
      → ((m : ℕ) → n < m → r m ≡ none)
      → suc n ≡ hi
  some-ends lo hi n r t kept above = elim (Bool-cases (ltb n hi)) [
    | inr b ↦ absurd (cc (t.above n (omega tests), kept))
    | inl b ↦ elim (Bool-cases (ltb (suc n) hi)) [
      | inr b' ↦ omega tests
      | inl b' ↦ elim (Bool-cases (ltb n lo)) [
        | inl c ↦ absurd (cc (t.below n (ltb→lt n lo c), kept))
        | inr c ↦
            absurd
              (cc (t.shared (suc n) (omega tests) (ltb→lt _ _ b'), above (suc n) (omega arith)))
      ]
    ]
  ]
