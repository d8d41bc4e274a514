-- ===== src/Codegen/Rust/Variants.antt =====
-- The variants that the values of an enum become.
use Prim.Native.Char.{Char}
use Prim.Native.String.{[] as empty, ◌∷◌ as ◌∷ˢ◌}
use Prim.Native.String.append
use subdex.Prelude.{
  String, ◌<>◌, List, [], ◌∷◌, map, if◌then◌else◌, ◌≡◌, refl, ◌∙◌, sym, ap, Bool-cases, inl, inr,
}
use subdex.Prelude.Chars.{
  to_ascii_lowercase, to_ascii_lowercase-uppercase, to_ascii_lowercase_twice,
}
use subdex.Codegen.Rust.{pascal_variant, capitalize}
use subdex.Codegen.Text.{concat, lowercase, is_underscore, before_first, split_underscores}

-- The value's characters but for its underscores.
unfoldable pub without_underscores : String → String
without_underscores empty = empty
without_underscores (c ∷ˢ s) =
    let rest = without_underscores s in if is_underscore c then rest else c ∷ˢ rest

lowercase_twice : (s : String) → lowercase (lowercase s) ≡ lowercase s
unfolding lowercase
lowercase_twice empty = refl
lowercase_twice (c ∷ˢ s) = λ i. to_ascii_lowercase_twice c i ∷ˢ lowercase_twice s i

lowercase-append : (s t : String) → lowercase (s <> t) ≡ lowercase s <> lowercase t
unfolding lowercase
lowercase-append empty t = ap lowercase (append.nil t) ∙ sym (append.nil (lowercase t))
lowercase-append (c ∷ˢ s) t =
    ap lowercase (append.cons c s t)
    ∙ ap (λ x. to_ascii_lowercase c ∷ˢ x) (lowercase-append s t)
    ∙ sym (append.cons (to_ascii_lowercase c) (lowercase s) (lowercase t))

lowercase-capitalize : (s : String) → lowercase (capitalize s) ≡ lowercase s
unfolding lowercase capitalize
lowercase-capitalize empty = refl
lowercase-capitalize (c ∷ˢ s) = λ i. to_ascii_lowercase-uppercase c i ∷ˢ lowercase_twice s i

-- The small letters of the pieces.
abbrev small : List String → String
small pieces = lowercase (concat (map capitalize pieces))

small-cons : (x : String) (xs : List String) → small (x ∷ xs) ≡ lowercase x <> small xs
unfolding concat
small-cons x xs =
    lowercase-append (capitalize x) (concat (map capitalize xs))
    ∙ ap (λ y. y <> small xs) (lowercase-capitalize x)

small-before_first :
    (c : Char) (pieces : List String)
    → small (before_first c pieces) ≡ to_ascii_lowercase c ∷ˢ small pieces
unfolding before_first lowercase
small-before_first c [] =
    small-cons (c ∷ˢ empty) []
    ∙ (append.cons (to_ascii_lowercase c) empty (small []))
    ∙ ap (λ x. to_ascii_lowercase c ∷ˢ x) (append.nil (small []))
small-before_first c (x ∷ xs) =
    small-cons (c ∷ˢ x) xs
    ∙ (append.cons (to_ascii_lowercase c) (lowercase x) (small xs))
    ∙ ap (λ y. to_ascii_lowercase c ∷ˢ y) (sym (small-cons x xs))

small-split : (s : String) → small (split_underscores s) ≡ lowercase (without_underscores s)
unfolding split_underscores without_underscores lowercase concat capitalize
small-split empty = refl
small-split (c ∷ˢ s) = elim (Bool-cases (is_underscore c)) [
  | inl b ↦ rw b (
      small-cons "" (split_underscores s)
      ∙ (append.nil (small (split_underscores s)))
      ∙ small-split s)
  | inr b ↦ rw b (
      small-before_first c (split_underscores s)
      ∙ (ap (λ x. to_ascii_lowercase c ∷ˢ x) (small-split s)))
]

-- The variant of a value keeps all its characters but the underscores, in their order, up to the case of its
-- letters. So two values have different variants where more than underscores and case sets them apart.
pascal_variant-letters :
    (value : String) → lowercase (pascal_variant value) ≡ lowercase (without_underscores value)
unfolding pascal_variant
pascal_variant-letters value = small-split value
