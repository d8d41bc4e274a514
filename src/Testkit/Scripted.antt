-- ===== src/Testkit/Scripted.antt =====
-- `ScriptedSource` over `test_chain` is a source of one chain, as the engine's theorems ask for.
use subdex.Prelude.{
  ℕ, zero, suc, ◌+◌, ◌-◌, ◌≤◌, min, max, ◌≡◌, refl, ◌∙◌, sym, ap, List, [], ◌∷◌, none, some, leb,
  ltb, if◌then◌else◌, Bool-cases, inl, inr, arith, tests, u32_max, last_or,
}
use subdex.Core.Error.{ok}
use subdex.Core.Types.{Block}
use subdex.Core.Chain.{IsChain, Serves, segment}
use subdex.Processor.Run.Streams.{Streams}
use subdex.Processor.Run.Waits.{Waits}
use subdex.Testkit.{
  in_window, window, block_at, next_scripted, scripted, test_link, test_parent, test_chain,
  last_number,
}

module _ (Value : Type 0) where
  test_link-IsChain : IsChain (test_link {Value = Value})
  unfolding test_parent
  test_link-IsChain = record { numbered = λ n. refl; linked = λ n. refl }

  test_chain-segment :
      (count start : ℕ)
      → test_chain {Value = Value} start count ≡ segment (test_link {Value = Value}) start count
  unfolding test_chain
  test_chain-segment zero start = refl
  test_chain-segment (suc count) start =
      ap (λ bs. test_link start ∷ bs) (test_chain-segment count (suc start))

  abbrev S : ℕ → ℕ → List (Block Value)
  S = segment test_link

  segment_at : {a b m n : ℕ} → a ≡ b → m ≡ n → S a m ≡ S b n
  segment_at p q i = S (p i) (q i)

  segment_none : (a b : ℕ) {m n : ℕ} → m ≡ 0 → n ≡ 0 → S a m ≡ S b n
  segment_none a b p q = segment_at {a = a} refl p ∙ sym (segment_at {a = b} refl q)

  -- A window of a segment is a segment.
  window-segment :
      (from to count start : ℕ)
      → window from to (segment (test_link {Value = Value}) start count)
        ≡ segment
            (test_link {Value = Value})
            (max start from)
            (min (start + count) (suc to) - max start from)
  unfolding window in_window
  window-segment from to zero start =
      ap (segment (test_link {Value = Value}) (max start from)) {x = 0} (omega arith)
  window-segment from to (suc count) start =
      let rest = window-segment from to count (suc start) in
      elim (Bool-cases (leb from start)) [
        | inr b ↦ rw b (rest ∙ segment_at (omega tests) (omega tests))
        | inl b ↦ elim (Bool-cases (leb start to)) [
          | inr c ↦ rw (b, c) (rest ∙ segment_none _ _ (omega tests) (omega tests))
          | inl c ↦
              rw (b, c)
                (ap (λ bs. test_link start ∷ bs) (rest ∙ segment_at (omega tests) refl)
                  ∙ segment_at {a = start}
                      {m = suc (min (suc start + count) (suc to) - max (suc start) from)}
                      (omega tests) (omega tests))
        ]
      ]

  block_at-segment :
      (count start idx : ℕ)
      → block_at (segment (test_link {Value = Value}) start count) idx
        ≡ (if ltb idx count then some (test_link (start + idx)) else none)
  unfolding block_at
  block_at-segment zero start idx = ground arith
  block_at-segment (suc count) start zero = ground arith
  block_at-segment (suc count) start (suc idx) =
      rw (block_at-segment count (suc start) idx) (ground arith)

  last-segment :
      (k start : ℕ)
      → (last_or (test_link {Value = Value} start) (segment test_link (suc start) k)).id.number
        ≡ start + k
  last-segment zero start = omega arith
  last-segment (suc k) start = last-segment k (suc start) ∙ omega arith

  -- Over a test chain from height 0 the source serves the chain up to its last block.
  scripted-Serves :
      (head : ℕ) → Serves (scripted (test_chain {Value = Value} 0 (suc head))) test_link head
  unfolding last_number
  scripted-Serves head = record {
    head_known = λ idx.
        ap (λ bs. ok (last_number bs)) (test_chain-segment (suc head) 0)
        ∙ ap (λ n. ok n) (last-segment head 0 ∙ omega arith);
    fetches = λ from to idx le below. (
      to - from,
      omega arith,
      ap (λ bs. ok (record { blocks = bs }))
          (ap (window from to) (test_chain-segment (suc head) 0)
            ∙ window-segment from to (suc head) 0
            ∙ segment_at {b = from} {n = suc (to - from)} (omega arith) (omega arith)),
    );
  }

  -- Its stream gives one block of the chain at each call, from the height `next_idx` on, and then none;
  -- its other calls leave the stream alone.
  scripted-Streams :
      (head : ℕ)
      → head ≤ u32_max
      → Streams
          (scripted (test_chain {Value = Value} 0 (suc head)))
          test_link
          (λ idx. min idx (suc head))
  unfolding next_scripted
  scripted-Streams head small = record {
    fits = λ idx. omega (arith, small);
    gives = λ idx.
        let at : block_at (test_chain 0 (suc head)) idx
            ≡ (if ltb idx (suc head) then some (test_link (0 + idx)) else none) =
          ap (λ bs. block_at bs idx) (test_chain-segment (suc head) 0)
          ∙ block_at-segment (suc head) 0 idx in
        elim (Bool-cases (ltb idx (suc head))) [
          | inl b ↦ (
            1,
            rw (at, b) (ap (λ n. ok (record { blocks = test_link n ∷ [] })) (omega tests)),
            rw (at, b) (omega tests),
          )
          | inr b ↦ (0, rw (at, b) refl, rw (at, b) (omega arith))
        ];
  }

  scripted-Waits : (blocks : List (Block Value)) (tip : ℕ → ℕ) → Waits (scripted blocks) tip
  scripted-Waits blocks tip = record { head_waits = λ idx. refl; fetch_waits = λ from to idx. refl }
