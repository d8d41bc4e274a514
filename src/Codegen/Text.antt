-- ===== src/Codegen/Text.antt =====
-- What the generators use of `str`: `concat` for `format!` and `push_str`, upper case, and `split`.
use Prim.Native.Char.{Char, code}
use Prim.Native.String.{[] as empty, ◌∷◌ as ◌∷ˢ◌}
use subdex.Prelude.{String, ◌<>◌, Bool, List, [], ◌∷◌, ◌==◌, if◌then◌else◌}
use subdex.Prelude.Chars.{to_ascii_lowercase}

unfoldable pub concat : List String → String
concat [] = ""
concat (x ∷ xs) = x <> concat xs

unfoldable pub lowercase : String → String
lowercase empty = empty
lowercase (c ∷ˢ s) = to_ascii_lowercase c ∷ˢ lowercase s

abbrev pub is_underscore : Char → Bool
is_underscore c = code c == 95

-- A character in front of the first piece.
unfoldable pub before_first : Char → List String → List String
before_first c [] = (c ∷ˢ empty) ∷ []
before_first c (x ∷ xs) = (c ∷ˢ x) ∷ xs

-- `s.split('_')`
unfoldable pub split_underscores : String → List String
split_underscores empty = "" ∷ []
split_underscores (c ∷ˢ s) =
    let rest = split_underscores s in if is_underscore c then "" ∷ rest else before_first c rest
