-- ===== src/Source/Sqd/Text.antt =====
-- What the portal's client uses of `str`: `trim`, `lines` and `trim_end_matches('/')`.
use Prim.Native.Char.{Char, code}
use Prim.Native.String.{[] as empty, ◌∷◌ as ◌∷ˢ◌}
use subdex.Prelude.{
  String, Bool, true, false, ◌&&◌, ◌||◌, List, [], ◌∷◌, leb, ◌==◌, if◌then◌else◌, ◌≡◌, refl,
}

-- The characters that Unicode calls white space.
abbrev is_whitespace : Char → Bool
is_whitespace c =
    let n = code c in
    (leb 9 n && leb n 13)
    || ((n == 32)
        || ((n == 133)
            || ((n == 160)
                || ((n == 5760)
                    || ((leb 8192 n && leb n 8202)
                        || ((n == 8232)
                            || ((n == 8233) || ((n == 8239) || ((n == 8287) || (n == 12288))))))))))

abbrev pub is_empty_text : String → Bool
is_empty_text empty = true
is_empty_text (c ∷ˢ s) = false

unfoldable pub trim_start : String → String
trim_start empty = empty
trim_start (c ∷ˢ s) = let rest = trim_start s in if is_whitespace c then rest else c ∷ˢ s

-- Without the characters at the end that satisfy the test.
unfoldable pub trim_end_with : (Char → Bool) → String → String
trim_end_with f empty = empty
trim_end_with f (c ∷ˢ s) =
    let rest = trim_end_with f s in if f c && is_empty_text rest then empty else c ∷ˢ rest

unfoldable pub trim : String → String
unfolding trim_start trim_end_with
trim s = trim_start (trim_end_with is_whitespace s)

abbrev pub trim_slashes : String → String
trim_slashes = trim_end_with λ c. code c == 47

-- The character in front of the first line.
unfoldable pub in_front : Char → List String → List String
in_front c [] = (c ∷ˢ empty) ∷ []
in_front c (line ∷ lines) = (c ∷ˢ line) ∷ lines

-- A carriage return before the end of a line stays; `trim` takes it off.
unfoldable pub lines : String → List String
lines empty = []
lines (c ∷ˢ s) = let rest = lines s in if code c == 10 then empty ∷ rest else in_front c rest

trim_test : trim "  a b\t\r" ≡ "a b"
unfolding trim trim_start trim_end_with
trim_test = refl

lines_test : lines "a\n\nb\n" ≡ "a" ∷ "" ∷ "b" ∷ []
unfolding lines in_front
lines_test = refl
