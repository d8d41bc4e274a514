-- ===== src/Prelude/Chars.antt =====
-- ASCII characters of the native texts: `is_ascii_uppercase` and its like, and `to_ascii_lowercase`.
use Prim.Native.Nat.{ℕ, zero, suc, ◌+◌, ◌-◌, ◌<◌}
use Prim.Native.Char.{Char, char, code, nul}
use Prim.Native.String.{String, [], ◌∷◌, ◌++◌}
use Prim.Native.String.append
use mathlib.Core.Path.{◌≡◌, refl, sym, subst, ◌∙◌}
use mathlib.Core.Bool.{Bool, true, false, not, ◌&&◌}
use mathlib.Core.Logic.{inl, inr}
use native.Mathlib.Omega.{arith}
use text.Mathlib.TextEquality.{Char-path}
use subdex.Prelude.Tests.{leb, ◌==◌, if◌then◌else◌, Bool-cases}

abbrev pub between : ℕ → ℕ → Char → Bool
between a b c = leb a (code c) && leb (code c) b

abbrev pub is_ascii_uppercase : Char → Bool
is_ascii_uppercase = between 65 90

abbrev pub is_ascii_lowercase : Char → Bool
is_ascii_lowercase = between 97 122

abbrev pub is_ascii_digit : Char → Bool
is_ascii_digit = between 48 57

abbrev pub underscore : Char
underscore = char 95 tt

-- Every character of a text satisfies a test.
abbrev pub AllChars : (Char → Bool) → String → Type 0
AllChars f [] = Unit
AllChars f (c ∷ s) = (f c ≡ true) × AllChars f s

abbrev pub all_chars : (Char → Bool) → String → Bool
all_chars f [] = true
all_chars f (c ∷ s) = f c && all_chars f s

pub all_chars-AllChars : (f : Char → Bool) (s : String) → all_chars f s ≡ true → AllChars f s
all_chars-AllChars f [] h = tt
all_chars-AllChars f (c ∷ s) h = (ground arith, all_chars-AllChars f s (ground arith))

-- The character at an index, `nul` past the end.
nth : String → ℕ → Char
nth [] i = nul
nth (c ∷ s) zero = c
nth (c ∷ s) (suc i) = nth s i

abbrev alphabet : String
alphabet = "abcdefghijklmnopqrstuvwxyz"

unfoldable pub to_ascii_lowercase : Char → Char
unfolding nth
to_ascii_lowercase c = if is_ascii_uppercase c then nth alphabet (code c - 65) else c

abbrev capitals : String
capitals = "ABCDEFGHIJKLMNOPQRSTUVWXYZ"

unfoldable pub to_ascii_uppercase : Char → Char
unfolding nth
to_ascii_uppercase c = if is_ascii_lowercase c then nth capitals (code c - 97) else c

nth-AllChars :
    (f : Char → Bool) (s : String) (i : ℕ) → AllChars f s → f nul ≡ true → f (nth s i) ≡ true
unfolding nth
nth-AllChars f [] i h z = z
nth-AllChars f (c ∷ s) zero h z = h.0
nth-AllChars f (c ∷ s) (suc i) h z = nth-AllChars f s i h.1 z

-- A test that holds of the lower-case letters, of NUL, and of what is no capital, holds after
-- `to_ascii_lowercase`.
pub to_ascii_lowercase-test :
    (f : Char → Bool) (c : Char)
    → all_chars f "abcdefghijklmnopqrstuvwxyz" ≡ true
    → f nul ≡ true
    → (is_ascii_uppercase c ≡ false → f c ≡ true)
    → f (to_ascii_lowercase c) ≡ true
unfolding to_ascii_lowercase
to_ascii_lowercase-test f c letters z h = elim (Bool-cases (is_ascii_uppercase c)) [
  | inl b ↦ rw b (nth-AllChars f alphabet (code c - 65) (all_chars-AllChars f alphabet letters) z)
  | inr b ↦ rw b (h b)
]

-- The letters agree: the small letter of a capital stands where the capital does.
letters_agree : ℕ → Bool
letters_agree zero = true
letters_agree (suc n) = (code (to_ascii_lowercase (nth capitals n)) == n + 97) && letters_agree n

letters_agree-at :
    (n i : ℕ) → letters_agree n ≡ true → i < n → code (to_ascii_lowercase (nth capitals i)) ≡ i + 97
unfolding letters_agree
letters_agree-at zero i h lt = absurd (omega arith)
letters_agree-at (suc n) i h lt = elim (Bool-cases (i == n)) [
  | inl b ↦
      let e : i ≡ n = ground arith in
      subst (λ k. code (to_ascii_lowercase (nth capitals k)) ≡ k + 97) (sym e) (ground arith)
  | inr b ↦ letters_agree-at n i (ground arith) (ground arith)
]

letters : letters_agree 26 ≡ true
unfolding letters_agree to_ascii_lowercase nth
letters = refl

pub to_ascii_lowercase-same : (c : Char) → is_ascii_uppercase c ≡ false → to_ascii_lowercase c ≡ c
unfolding to_ascii_lowercase
to_ascii_lowercase-same c h = rw h refl

pub to_ascii_lowercase-uppercase :
    (c : Char) → to_ascii_lowercase (to_ascii_uppercase c) ≡ to_ascii_lowercase c
unfolding to_ascii_uppercase
to_ascii_lowercase-uppercase c = elim (Bool-cases (is_ascii_lowercase c)) [
  | inr b ↦ rw b refl
  | inl b ↦
      let same : code (to_ascii_lowercase (nth capitals (code c - 97))) ≡ code c - 97 + 97 =
        letters_agree-at 26 (code c - 97) letters (ground arith) in
      rw b (
        Char-path (to_ascii_lowercase (nth capitals (code c - 97))) c (ground (arith, same))
        ∙ sym (to_ascii_lowercase-same c (ground arith)))
]

pub to_ascii_lowercase_twice :
    (c : Char) → to_ascii_lowercase (to_ascii_lowercase c) ≡ to_ascii_lowercase c
to_ascii_lowercase_twice c =
    let small =
      to_ascii_lowercase-test (λ x. not (is_ascii_uppercase x)) c (refl) refl (λ h. rw h refl) in
    to_ascii_lowercase-same (to_ascii_lowercase c) (ground (arith, small))

pub AllChars-append :
    (f : Char → Bool) (s t : String) → AllChars f s → AllChars f t → AllChars f (s ++ t)
AllChars-append f [] t h k = rw (append.nil t) k
AllChars-append f (c ∷ s) t h k = rw (append.cons c s t) (h.0, AllChars-append f s t h.1 k)
