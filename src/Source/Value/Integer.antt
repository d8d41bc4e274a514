-- ===== src/Source/Value/Integer.antt =====
-- `as_u128` against the integers that primitives stand for.
use subdex.Prelude.{
  ℕ, zero, suc, ◌+◌, ◌*◌, ◌^◌, ◌≤◌, ◌<◌, true, false, Option, none, some, List, [], ◌∷◌, length,
  All, ltb, ◌==◌, if◌then◌else◌, ◌≡◌, refl, arith, Bool-cases, lt→ltb, le→ltb, inl, inr,
}
use mathlib.Core.Option.{bind}
use subdex.Source.Value.{ℤ, Primitive, Value, from_le_bytes, take, drop, all_zero, as_u128}

-- The integer of a primitive that `as_u128` looks at.
abbrev pub integer_of : Value → Option ℤ
integer_of (Value.primitive (Primitive.u128 n)) = some (ℤ.pos n)
integer_of (Value.primitive (Primitive.u256 bytes)) = some (ℤ.pos (from_le_bytes bytes))
integer_of (Value.primitive (Primitive.i128 z)) = some z
integer_of _ = none

abbrev pub fit_u128 : ℤ → Option ℕ
fit_u128 (ℤ.pos n) = if ltb n (2 ^ 128) then some n else none
fit_u128 (ℤ.negsuc n) = none

-- The ranges that the Rust types have.
abbrev pub InRange : Value → Type 0
InRange (Value.primitive (Primitive.u128 n)) = n < 2 ^ 128
InRange (Value.primitive (Primitive.i128 (ℤ.pos n))) = n < 2 ^ 127
InRange (Value.primitive (Primitive.u256 bytes)) = (length bytes ≡ 32) × All (λ b. b < 2 ^ 8) bytes
InRange _ = Unit

-- 256 to the power of `n`.
abbrev weight : ℕ → ℕ
weight zero = 1
weight (suc n) = 2 ^ 8 * weight n

mul_assoc : (a b c : ℕ) → a * b * c ≡ a * (b * c)
mul_assoc a b c = grind arith

from_le_bytes-split :
    (n : ℕ) (bs : List ℕ)
    → n ≤ length bs
    → from_le_bytes bs ≡ from_le_bytes (take n bs) + weight n * from_le_bytes (drop n bs)
unfolding from_le_bytes
from_le_bytes-split zero bs h = omega arith
from_le_bytes-split (suc n) [] h = absurd (omega arith)
from_le_bytes-split (suc n) (b ∷ bs) h =
    let rest = from_le_bytes-split n bs (omega arith) in
    omega (arith, rest, mul_assoc (2 ^ 8) (weight n) (from_le_bytes (drop n bs)))

from_le_bytes-lt :
    (n : ℕ) (bs : List ℕ) → All (λ b. b < 2 ^ 8) bs → from_le_bytes (take n bs) < weight n
unfolding from_le_bytes
from_le_bytes-lt zero bs h = omega arith
from_le_bytes-lt (suc n) [] h = let rest = from_le_bytes-lt n [] tt in omega (arith, rest)
from_le_bytes-lt (suc n) (b ∷ bs) h = omega (arith, h.0, from_le_bytes-lt n bs h.1)

all_zero-true : (bs : List ℕ) → all_zero bs ≡ true → from_le_bytes bs ≡ 0
unfolding from_le_bytes
all_zero-true [] h = refl
all_zero-true (b ∷ bs) h =
    let rest = all_zero-true bs (ground arith) in
    let here : b ≡ 0 = ground arith in omega (arith, rest, here)

all_zero-false : (bs : List ℕ) → all_zero bs ≡ false → 1 ≤ from_le_bytes bs
unfolding from_le_bytes
all_zero-false [] h = absurd cc
all_zero-false (b ∷ bs) h = elim (Bool-cases (b == 0)) [
  | inl z ↦ let rest = all_zero-false bs (rw z at h) in omega (arith, rest)
  | inr z ↦ ground arith
]

-- `as_u128` gives the integer of an unsigned or signed 128-bit or an unsigned 256-bit primitive exactly
-- where it is from 0 to below 2^128, and nothing for any other value.
pub as_u128-fit_u128 : (v : Value) → InRange v → as_u128 v ≡ bind (integer_of v) fit_u128
unfolding as_u128 bind
as_u128-fit_u128 (Value.primitive (Primitive.u128 n)) h = ground arith
as_u128-fit_u128 (Value.primitive (Primitive.i128 (ℤ.pos n))) h = ground arith
as_u128-fit_u128 (Value.primitive (Primitive.u256 bytes)) h =
    let split = from_le_bytes-split 16 bytes (omega (arith, h.0)) in
    let low = from_le_bytes-lt 16 bytes h.1 in
    elim (Bool-cases (all_zero (drop 16 bytes))) [
      | inl z ↦
          let high = all_zero-true (drop 16 bytes) z in
          let same : from_le_bytes bytes ≡ from_le_bytes (take 16 bytes) =
            omega (arith, split, high) in
          let small : ltb (from_le_bytes bytes) (2 ^ 128) ≡ true =
            lt→ltb _ _ (omega (arith, same, low)) in
          rw (z, small) (cc (same))
      | inr z ↦
          let high = all_zero-false (drop 16 bytes) z in
          let big : ltb (from_le_bytes bytes) (2 ^ 128) ≡ false =
            le→ltb _ _ (omega (arith, split, high)) in
          rw (z, big) refl
    ]
as_u128-fit_u128 _ h = refl
