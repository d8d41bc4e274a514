-- ===== src/Core/Error.antt =====
-- crates/subdex-core/src/error.rs: `SubdexError`, its `Display` text, and `Result`.
use subdex.Prelude.{ℕ, String, ◌<>◌, decimal, ◌≡◌, refl, ◌⊎◌, inl, inr}

pub data SubdexError : Type 0 where
  source store decode : String → SubdexError
  reorg : ℕ → String → String → SubdexError
  reorg_too_deep : ℕ → ℕ → SubdexError
  handler config : String → SubdexError

-- The `#[error("…")]` attributes.
unfoldable pub to_string : SubdexError → String
unfolding decimal
to_string (SubdexError.source m) = "data source error: " <> m
to_string (SubdexError.store m) = "store error: " <> m
to_string (SubdexError.decode m) = "decode error: " <> m
to_string (SubdexError.reorg height expected got) =
    "reorg detected at height "
    <> (decimal height <> (": expected parent " <> (expected <> (", got " <> got))))
to_string (SubdexError.reorg_too_deep depth most) =
    "reorg too deep: fork is at least "
    <> (decimal depth <> (" blocks below the cursor (max_reorg_depth = " <> (decimal most <> ")")))
to_string (SubdexError.handler m) = "handler error: " <> m
to_string (SubdexError.config m) = "configuration error: " <> m

pub data Result {ℓ} (A : Type ℓ) : Type ℓ where
  ok : A → Result A
  err : SubdexError → Result A

pub Result-cases :
    {A : Type 0} (r : Result A) → ((a : A) × (r ≡ ok a)) ⊎ ((e : SubdexError) × (r ≡ err e))
Result-cases (ok a) = inl (a, refl)
Result-cases (err e) = inr (e, refl)

to_string_test :
    to_string (SubdexError.reorg_too_deep 65 64)
    ≡ "reorg too deep: fork is at least 65 blocks below the cursor (max_reorg_depth = 64)"
unfolding to_string
to_string_test = refl
