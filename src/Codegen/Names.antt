-- ===== src/Codegen/Names.antt =====
-- The names of crates/subdex-codegen/src/model.rs: `to_snake_case` and `table_name`.
use Prim.Native.Char.{Char}
use Prim.Native.String.{[], ◌∷◌, len, slice}
use subdex.Prelude.{
  ◌-◌, String, ◌<>◌, str_eq, Bool, false, not, ◌&&◌, ◌||◌, Option, none, some, if◌then◌else◌, ◌≡◌,
  refl, ap, arith, Bool-cases, inl, inr,
}
use subdex.Prelude.Chars.{
  is_ascii_uppercase, is_ascii_lowercase, is_ascii_digit, to_ascii_lowercase, underscore, AllChars,
  to_ascii_lowercase-test,
}

-- A test of the neighbour of a character, which may be missing.
unfoldable pub next_to : (Char → Bool) → Option Char → Bool
next_to f none = false
next_to f (some c) = f c

abbrev first_char : String → Option Char
first_char [] = none
first_char (c ∷ s) = some c

-- Whether a capital that follows `prev` and comes before `s` starts a word.
unfoldable pub starts_word : Option Char → String → Bool
unfolding next_to
starts_word prev s =
    let prev_lower = next_to is_ascii_lowercase prev || next_to is_ascii_digit prev in
    let next_lower = next_to is_ascii_lowercase (first_char s) in
    let prev_upper = next_to is_ascii_uppercase prev in prev_lower || (prev_upper && next_lower)

-- The loop of `to_snake_case`, after the character `prev`.
unfoldable pub snake_from : Option Char → String → String
unfolding starts_word
snake_from prev [] = []
snake_from prev (c ∷ s) =
    let rest = snake_from (some c) s in
    if is_ascii_uppercase c
    then (if starts_word prev s
        then underscore ∷ (to_ascii_lowercase c ∷ rest)
        else to_ascii_lowercase c ∷ rest)
    else c ∷ rest

abbrev pub to_snake_case : String → String
to_snake_case s = snake_from none s

unfoldable pub ends_with : String → String → Bool
ends_with [] t = str_eq [] t
ends_with (c ∷ s) t = let rest = ends_with s t in str_eq (c ∷ s) t || rest

unfoldable pub table_name : String → String
unfolding snake_from ends_with
table_name entity =
    let base = to_snake_case entity in
    if ends_with base "s" || (ends_with base "ch" || (ends_with base "sh" || ends_with base "x"))
    then base <> "es"
    else if ends_with base "y"
        && (not (ends_with base "ay")
            && (not (ends_with base "ey")
                && (not (ends_with base "oy") && not (ends_with base "uy"))))
    then slice base 0 (len base - 1) <> "ies"
    else base <> "s"

unfoldable pub is_not_uppercase : Char → Bool
is_not_uppercase c = not (is_ascii_uppercase c)

snake_from-lower : (prev : Option Char) (s : String) → AllChars is_not_uppercase (snake_from prev s)
unfolding snake_from is_not_uppercase
snake_from-lower prev [] = tt
snake_from-lower prev (c ∷ s) =
    let rest = snake_from-lower (some c) s in
    let lower = to_ascii_lowercase-test is_not_uppercase c refl refl (λ h. rw h refl) in
    elim (Bool-cases (is_ascii_uppercase c)) [
      | inr b ↦ rw b (rw b refl, rest)
      | inl b ↦ rw b (elim (Bool-cases (starts_word prev s)) [
        | inl d ↦ rw d (refl, (lower, rest))
        | inr d ↦ rw d (lower, rest)
      ])
    ]

snake_from-same :
    (prev : Option Char) (s : String) → AllChars is_not_uppercase s → snake_from prev s ≡ s
unfolding snake_from is_not_uppercase
snake_from-same prev [] h = refl
snake_from-same prev (c ∷ s) h =
    let upper : is_ascii_uppercase c ≡ false = ground arith in
    rw upper (ap (λ t. c ∷ t) (snake_from-same (some c) s h.1))

-- A name in snake case has no capital letter, and its snake case is itself.
to_snake_case-idempotent :
    (s : String)
    → AllChars is_not_uppercase (to_snake_case s)
      × (to_snake_case (to_snake_case s) ≡ to_snake_case s)
to_snake_case-idempotent s =
    (snake_from-lower none s, snake_from-same none (to_snake_case s) (snake_from-lower none s))

http_server : to_snake_case "HTTPServer" ≡ "http_server"
unfolding snake_from starts_word next_to to_ascii_lowercase
http_server = refl

identities : table_name "Identity" ≡ "identities"
unfolding table_name to_ascii_lowercase
identities = refl
