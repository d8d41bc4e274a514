-- ===== src/Store/Postgres/Migrations.antt =====
-- `handler_migrations_table` of crates/subdex-store/src/store.rs.
use Prim.Native.Char.{Char, code}
use Prim.Native.String.{[], ◌∷◌}
use subdex.Prelude.{
  String, ◌<>◌, Bool, true, not, ◌||◌, ◌==◌, if◌then◌else◌, ◌≡◌, refl, arith, Bool-cases, inl, inr,
}
use subdex.Prelude.Chars.{
  is_ascii_uppercase, is_ascii_lowercase, is_ascii_digit, to_ascii_lowercase, underscore, AllChars,
  all_chars-AllChars, AllChars-append, to_ascii_lowercase-test,
}

abbrev is_ascii_alphanumeric : Char → Bool
is_ascii_alphanumeric c = is_ascii_lowercase c || (is_ascii_uppercase c || is_ascii_digit c)

unfoldable pub sanitize_char : Char → Char
sanitize_char c =
    let d = to_ascii_lowercase c in
    if is_ascii_alphanumeric d || (code d == 95) then d else underscore

unfoldable pub sanitize : String → String
sanitize [] = []
sanitize (c ∷ s) = sanitize_char c ∷ sanitize s

-- `if sanitized.is_empty() { "handler" } else { &sanitized }`
unfoldable pub or_handler : String → String
or_handler [] = "handler"
or_handler (c ∷ s) = c ∷ s

unfoldable pub handler_migrations_table : String → String
handler_migrations_table name = "_sqlx_migrations_" <> or_handler (sanitize name)

-- `[a-z0-9_]`
abbrev pub is_safe : Char → Bool
is_safe c = is_ascii_lowercase c || (is_ascii_digit c || (code c == 95))

sanitize_char-safe : (c : Char) → is_safe (sanitize_char c) ≡ true
unfolding sanitize_char
sanitize_char-safe c =
    let lower =
      to_ascii_lowercase-test (λ x. not (is_ascii_uppercase x)) c refl refl (λ h. rw h refl) in
    elim (Bool-cases
      (is_ascii_alphanumeric (to_ascii_lowercase c) || (code (to_ascii_lowercase c) == 95))) [
        | inl b ↦ rw b (ground arith)
        | inr b ↦ rw b refl
      ]

sanitize-safe : (s : String) → AllChars is_safe (sanitize s)
unfolding sanitize
sanitize-safe [] = tt
sanitize-safe (c ∷ s) = (sanitize_char-safe c, sanitize-safe s)

or_handler-safe : (s : String) → AllChars is_safe s → AllChars is_safe (or_handler s)
unfolding or_handler
or_handler-safe [] h = all_chars-AllChars is_safe "handler" refl
or_handler-safe (c ∷ s) h = h

-- Whatever the handler's name, its table's name has only lower-case letters, digits and underscores.
handler_migrations_table-safe : (name : String) → AllChars is_safe (handler_migrations_table name)
unfolding handler_migrations_table
handler_migrations_table-safe name =
    AllChars-append is_safe "_sqlx_migrations_" (or_handler (sanitize name))
      (all_chars-AllChars is_safe "_sqlx_migrations_" refl)
      (or_handler-safe (sanitize name) (sanitize-safe name))
