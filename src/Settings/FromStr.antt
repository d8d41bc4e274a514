-- ===== src/Settings/FromStr.antt =====
-- `str::parse` of the standard library at unsigned integers and at `bool`.
use Prim.Native.Char.{code}
use Prim.Native.String.{[] as empty, ◌∷◌ as ◌∷ˢ◌}
use subdex.Prelude.{
  ℕ, ◌+◌, ◌*◌, ◌-◌, String, str_eq, Bool, true, false, Option, none, some, leb, ◌==◌, if◌then◌else◌,
  ◌≡◌, refl, u32_max,
}
use subdex.Prelude.Chars.{is_ascii_digit}

-- The number that digits after `n` stand for; no other character is read.
unfoldable pub digits_value : ℕ → String → Option ℕ
digits_value n empty = some n
digits_value n (c ∷ˢ s) =
    let rest = digits_value (n * 10 + (code c - 48)) s in if is_ascii_digit c then rest else none

unfoldable pub some_digits : String → Option ℕ
some_digits empty = none
some_digits (c ∷ˢ s) = digits_value 0 (c ∷ˢ s)

unfoldable pub after_sign : String → Option ℕ
after_sign empty = none
after_sign (c ∷ˢ s) = if code c == 43 then some_digits s else some_digits (c ∷ˢ s)

unfoldable pub at_most : ℕ → Option ℕ → Option ℕ
at_most most none = none
at_most most (some n) = if leb n most then some n else none

-- At least one digit, a `+` allowed before them, and no overflow.
unfoldable pub parse_uint : ℕ → String → Option ℕ
unfolding at_most
parse_uint most s = at_most most (after_sign s)

unfoldable pub parse_bool : String → Option Bool
parse_bool s = if str_eq s "true" then some true else if str_eq s "false" then some false else none

parse_uint_test : parse_uint u32_max "+4096" ≡ some 4096
unfolding parse_uint after_sign some_digits digits_value
parse_uint_test = refl

overflow_test : parse_uint u32_max "4294967296" ≡ none
unfolding parse_uint after_sign some_digits digits_value
overflow_test = refl
