-- ===== src/Store/Map.antt =====
-- `BTreeMap<BlockNumber, V>` of the standard library, as an association list. Its order shows only in
-- `next_back`, which is the greatest key.
use subdex.Prelude.{
  ℕ, ◌<◌, ◌≡◌, refl, Option, none, some, List, [], ◌∷◌, arith, ltb, leb, ◌==◌, if◌then◌else◌,
}

abbrev pub Map : Type 0 → Type 0
Map V = List (ℕ × V)

module _ {V : Type 0} where
  unfoldable pub get : ℕ → Map V → Option V
  get k [] = none
  get k ((j, v) ∷ m) = if k == j then some v else get k m

  unfoldable pub insert : ℕ → V → Map V → Map V
  insert k v [] = (k, v) ∷ []
  insert k v ((j, w) ∷ m) = if k == j then (k, v) ∷ m else (j, w) ∷ insert k v m

  -- `iter().next_back()`
  unfoldable pub greater : ℕ × V → Option (ℕ × V) → ℕ × V
  greater (k, v) none = (k, v)
  greater (k, v) (some (j, w)) = if ltb k j then (j, w) else (k, v)

  unfoldable pub next_back : Map V → Option (ℕ × V)
  unfolding greater
  next_back [] = none
  next_back (e ∷ m) = some (greater e (next_back m))

  -- Without the keys of `range(k..)`.
  unfoldable pub keep_below : ℕ → Map V → Map V
  keep_below k [] = []
  keep_below k ((j, w) ∷ m) = let rest = keep_below k m in if ltb j k then (j, w) ∷ rest else rest

  -- Without the keys above `h`.
  unfoldable pub keep_upto : ℕ → Map V → Map V
  keep_upto h [] = []
  keep_upto h ((j, w) ∷ m) = let rest = keep_upto h m in if leb j h then (j, w) ∷ rest else rest

  -- Without the keys below `height`.
  unfoldable pub keep_from : ℕ → Map V → Map V
  keep_from h [] = []
  keep_from h ((j, w) ∷ m) = let rest = keep_from h m in if ltb j h then rest else (j, w) ∷ rest

  pub get-insert :
      (k j : ℕ) (v : V) (m : Map V) → get j (insert k v m) ≡ (if j == k then some v else get j m)
  unfolding get insert
  get-insert k j v [] = refl
  get-insert k j v ((i, w) ∷ m) = ground (arith, get-insert k j v m)

  pub get-keep_below :
      (k j : ℕ) (m : Map V) → get j (keep_below k m) ≡ (if ltb j k then get j m else none)
  unfolding get keep_below
  get-keep_below k j [] = ground arith
  get-keep_below k j ((i, w) ∷ m) = ground (arith, get-keep_below k j m)

  pub get-keep_upto :
      (h j : ℕ) (m : Map V) → get j (keep_upto h m) ≡ (if leb j h then get j m else none)
  unfolding get keep_upto
  get-keep_upto h j [] = ground arith
  get-keep_upto h j ((i, w) ∷ m) = ground (arith, get-keep_upto h j m)

  pub get-keep_from :
      (h j : ℕ) (m : Map V) → get j (keep_from h m) ≡ (if ltb j h then none else get j m)
  unfolding get keep_from
  get-keep_from h j [] = ground arith
  get-keep_from h j ((i, w) ∷ m) = ground (arith, get-keep_from h j m)

  pub next_back-none : (m : Map V) → next_back m ≡ none → (j : ℕ) → get j m ≡ none
  unfolding next_back get
  next_back-none [] e j = refl
  next_back-none (x ∷ m) e j = cc

  next_back-cons :
      (i k : ℕ) (w v : V) (m : Map V) (o : Option (ℕ × V))
      → (o ≡ none → (j : ℕ) → get j m ≡ none)
      → ((l : ℕ) (x : V)
          → o ≡ some (l, x)
          → (get l m ≡ some x) × ((j : ℕ) → l < j → get j m ≡ none))
      → some (greater (i, w) o) ≡ some (k, v)
      → ((if k == i then some w else get k m) ≡ some v)
        × ((j : ℕ) → k < j → (if j == i then some w else get j m) ≡ none)
  unfolding greater
  next_back-cons i k w v m none empty some' e = (ground arith, λ j lt. ground (arith, empty refl j))
  next_back-cons i k w v m (some (l, x)) empty some' e =
      let (at, above) = some' l x refl in
      (ground (arith, at, above i), λ j lt. ground (arith, at, above j))

  -- The greatest key is there with its value, and no key is above it.
  pub next_back-some :
      (m : Map V) (k : ℕ) (v : V)
      → next_back m ≡ some (k, v)
      → (get k m ≡ some v) × ((j : ℕ) → k < j → get j m ≡ none)
  unfolding next_back get
  next_back-some [] k v e = cc
  next_back-some ((i, w) ∷ m) k v e =
      next_back-cons i k w v m (next_back m) (next_back-none m) (λ l x. next_back-some m l x) e
