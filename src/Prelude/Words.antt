-- ===== src/Prelude/Words.antt =====
-- `u32` arithmetic: saturating operations, and `format!` of a number.
use Prim.Native.Nat.{ℕ, zero, suc, ◌+◌, ◌-◌, ◌/◌, ◌%◌, ◌^◌, ◌≤◌, min}
use Prim.Native.String.{String, ◌++◌ as ◌<>◌}
use mathlib.Core.Path.{◌≡◌, refl}
use native.Mathlib.Omega.{arith}
use subdex.Prelude.Tests.{ltb, ◌==◌, if◌then◌else◌}

abbrev pub u32_max : ℕ
u32_max = 2 ^ 32 - 1

abbrev pub u64_max : ℕ
u64_max = 2 ^ 64 - 1

-- `a.saturating_add(b)` on `u32`; `a.saturating_sub(b)` is the subtraction of ℕ.
unfoldable pub saturating_add : ℕ → ℕ → ℕ
saturating_add a b = min (a + b) u32_max

pub saturating_add-eq : (a b : ℕ) → a + b ≤ u32_max → saturating_add a b ≡ a + b
unfolding saturating_add
saturating_add-eq a b h = omega arith

digit : ℕ → String
digit d =
    if d == 0
    then "0"
    else if d == 1
    then "1"
    else if d == 2
    then "2"
    else if d == 3
    then "3"
    else if d == 4
    then "4"
    else if d == 5
    then "5"
    else if d == 6
    then "6"
    else if d == 7
    then "7"
    else if d == 8
    then "8"
    else "9"

decimal_on : ℕ → ℕ → String
decimal_on zero n = ""
decimal_on (suc fuel) n =
    let rest = decimal_on fuel (n / 10) in if ltb n 10 then digit n else rest <> digit (n % 10)

-- `{n}` in a format string. A number has fewer digits than its successor counts.
unfoldable pub decimal : ℕ → String
unfolding decimal_on digit
decimal n = decimal_on (suc n) n

decimal_test : decimal 4096 ≡ "4096"
unfolding decimal
decimal_test = refl
