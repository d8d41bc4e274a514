-- ===== src/Codegen/Scaffold/Laws.antt =====
-- The names that a project may have.
use Prim.Native.Char.{Char}
use Prim.Native.String.{[] as empty, ◌∷◌ as ◌∷ˢ◌}
use subdex.Prelude.{
  String, Bool, false, ◌||◌, none, ◌≡◌, ◌↔◌, refl, arith, Bool-cases, Option-cases, inl, inr,
}
use subdex.Prelude.Chars.{is_ascii_lowercase, is_ascii_digit, AllChars}
use subdex.Codegen.Text.{is_underscore}
use subdex.Codegen.Scaffold.{
  Validity, is_dash, is_name_char, find_bad, validate_chars, validate_name, crate_path,
}

-- Small letters, digits, underscores and dashes, the first one no digit and no dash.
abbrev pub IsPackageName : String → Type 0
IsPackageName empty = ⊥
IsPackageName (c ∷ˢ s) = ((is_ascii_digit c || is_dash c) ≡ false) × AllChars is_name_char (c ∷ˢ s)

abbrev pub is_ident_char : Char → Bool
is_ident_char c = is_ascii_lowercase c || (is_ascii_digit c || is_underscore c)

abbrev pub IsIdentifier : String → Type 0
IsIdentifier empty = ⊥
IsIdentifier (c ∷ˢ s) = (is_ascii_digit c ≡ false) × AllChars is_ident_char (c ∷ˢ s)

find_bad-AllChars : (s : String) → (find_bad s ≡ none) ↔ AllChars is_name_char s
unfolding find_bad
find_bad-AllChars empty = (λ _. tt, λ _. refl)
find_bad-AllChars (c ∷ˢ s) = elim (Bool-cases (is_name_char c)) [
  | inl b ↦ rw b (λ h. (refl, (find_bad-AllChars s).0 h), λ h. (find_bad-AllChars s).1 h.1)
  | inr b ↦ rw b (λ h. absurd (cc h), λ h. absurd (cc (h.0)))
]

crate_path-ident : (s : String) → AllChars is_name_char s → AllChars is_ident_char (crate_path s)
unfolding crate_path
crate_path-ident empty h = tt
crate_path-ident (c ∷ˢ s) h = elim (Bool-cases (is_dash c)) [
  | inl b ↦ rw b (refl, crate_path-ident s h.1)
  | inr b ↦ rw b (ground (arith, h.0), crate_path-ident s h.1)
]

validate_name-accepts : (name : String) → IsPackageName name → validate_name name ≡ Validity.valid
unfolding validate_name validate_chars
validate_name-accepts empty h = absurd h
validate_name-accepts (c ∷ˢ s) h = rw (h.0, (find_bad-AllChars (c ∷ˢ s)).1 h.1) refl

validate_name-rejects : (name : String) → validate_name name ≡ Validity.valid → IsPackageName name
unfolding validate_name validate_chars
validate_name-rejects empty h = absurd (cc h)
validate_name-rejects (c ∷ˢ s) h = elim (Bool-cases (is_ascii_digit c || is_dash c)) [
  | inl b ↦ absurd (cc (rw b at h))
  | inr b ↦ elim (Option-cases (find_bad (c ∷ˢ s))) [
    | inl n ↦ (b, (find_bad-AllChars (c ∷ˢ s)).0 n)
    | inr (x, e) ↦ absurd (cc (rw (b, e) at h))
  ]
]

crate_path-IsIdentifier : (name : String) → IsPackageName name → IsIdentifier (crate_path name)
unfolding crate_path
crate_path-IsIdentifier empty h = absurd h
crate_path-IsIdentifier (c ∷ˢ s) h =
    let dash : is_dash c ≡ false = ground (arith, h.0) in
    rw dash (ground (arith, h.0), (ground (arith, h.0, h.1.0), crate_path-ident s h.1.1))

-- `validate_name` accepts exactly the names of small letters, digits, underscores and dashes that start with
-- neither a digit nor a dash; and of an accepted name the path of the crate, which `main.rs` names, is an
-- identifier: small letters, digits and underscores, the first one no digit.
pub validate_name-IsPackageName :
    (name : String)
    → ((validate_name name ≡ Validity.valid) ↔ IsPackageName name)
      × (validate_name name ≡ Validity.valid → IsIdentifier (crate_path name))
validate_name-IsPackageName name = (
  (validate_name-rejects name, validate_name-accepts name),
  λ h. crate_path-IsIdentifier name (validate_name-rejects name h),
)
