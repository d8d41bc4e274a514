-- ===== src/Source/Retry/Recovers.antt =====
-- An operation under `retry_async`, with fuel for all its attempts, over a network that recovers.
use subdex.Prelude.{
  ℕ, suc, ◌-◌, ◌≤◌, ◌≡◌, ap, ◌∙◌, true, Option, none, some, List, [], arith, ◌⊎◌, inl, inr, ltb,
  ltb→lt, Bool-cases, subst,
}
use mathlib.Core.Option.{some-injective}
use subdex.Core.Error.{SubdexError, Result, ok, err}
use subdex.Exec.{Exec}
use subdex.Source.Config.{Duration, RetryConfig}
use subdex.Source.Retry.{is_transient, retry_async}
use subdex.Source.Retry.Attempts.{after, outcome, FailFirst, IsFinal, StopsAt, retry_async_lem}

-- `retry_async(…).await`, with its sleeps forgotten; `none`, that the fuel ran out, does not happen.
unfoldable pub settled : {W A : Type 0} → Option (Result A) × W × List Duration → Result A × W
settled (some r, w, slept) = (r, w)
settled (none, w, slept) = (err (SubdexError.source ""), w)

abbrev pub retried : {W A : Type 0} → RetryConfig → (ℕ → ℕ) → Exec W A → Exec W A
retried cfg clock op w = settled (retry_async cfg clock op (suc cfg.max_retries) w)

settled-some :
    {W A : Type 0} (r : Option (Result A) × W × List Duration) (o : Result A)
    → r.0 ≡ some o
    → settled r ≡ (o, r.1)
unfolding settled
settled-some (some x, w, s) o e = ap (λ y. (y, w)) (some-injective x o e)
settled-some (none, w, s) o e = absurd cc

-- What is returned is the outcome and the state of some call.
module _ {W A : Type 0} (most : ℕ) (op : Exec W A) (v : A) where
  -- Each call gives the value or fails in a way that is worth a retry, and not more than `most` in a
  -- row fail.
  pub record Recovers : Type 0 where
    pub gives :
        (w : W)
        → ((op w).0 ≡ ok v) ⊎ ((e : SubdexError) × ((op w).0 ≡ err e) × (is_transient e ≡ true))
    pub in_time : (w : W) → (k : ℕ) × (k ≤ most) × (outcome op k w ≡ ok v)

module _ {W A : Type 0} (cfg : RetryConfig) (clock : ℕ → ℕ) (op : Exec W A) (v : A)
    (rec : Recovers cfg.max_retries op v) where
  clash : {e : SubdexError} {r : Result A} → r ≡ ok v → r ≡ err e → ⊥
  clash a b = cc

  -- The call after all retries is the one that succeeds.
  in_time :
      (k : ℕ) (w : W)
      → FailFirst op k w
      → cfg.max_retries ≤ k
      → (j : ℕ) × (j ≤ cfg.max_retries) × (outcome op j w ≡ ok v)
      → outcome op k w ≡ ok v
  in_time k w failed le (j, within, s) = elim (Bool-cases (ltb j k)) [
    | inl b ↦ let (x, e, t) = failed j (ltb→lt j k b) in absurd (clash s e)
    | inr b ↦ let same : j ≡ k = ground arith in subst (λ i. outcome op i w ≡ ok v) same s
  ]

  StopsAt-ok :
      (k : ℕ) (w : W) (r : Option (Result A) × W × List Duration)
      → StopsAt cfg clock op k cfg.max_retries w [] r
      → outcome op k w ≡ ok v
  StopsAt-ok k w r h = elim (rec.gives (after op k w)) [
    | inl e ↦ e
    | inr (x, e, t) ↦ elim (subst (IsFinal (cfg.max_retries - k)) e h.final) [
      | inl f ↦ absurd cc
      | inr z ↦ in_time k w h.failed_first (omega (arith, h.within, z)) (rec.in_time w)
    ]
  ]

  pub retried-Recovers : (w : W) → (retried cfg clock op w).0 ≡ ok v
  retried-Recovers w =
      let (k, h) = retry_async_lem cfg clock op cfg.max_retries w (omega arith) in
      ap (λ r. r.0) (settled-some _ _ h.result) ∙ StopsAt-ok k w _ h
