-- ===== src/Source/Sqd/Signer.antt =====
-- `extract_signer` of crates/subdex-source/src/sqd/mapping.rs. The hex decoder and the parts of SS58 are
-- parameters.
use Prim.Native.Char.{code}
use Prim.Native.String.{◌∷◌ as ◌∷ˢ◌}
use mathlib.Core.Option.{map, bind}
use subdex.Prelude.{
  ℕ, String, Bool, true, false, ◌&&◌, Option, none, some, List, [], ◌∷◌, ◌++◌, first, length, ◌==◌,
  if◌then◌else◌, ◌≡◌, refl, Bool-cases, inl, inr,
}
use subdex.Source.Ss58.{encode}
use subdex.Source.Sqd.Json.{Json, Elements, Members}

-- `s.strip_prefix("0x")`
unfoldable pub strip_0x : String → Option String
strip_0x (c ∷ˢ d ∷ˢ s) = if code c == 48 && (code d == 120) then some s else none
strip_0x _ = none

unfoldable pub is_some : {A : Type 0} → Option A → Bool
is_some none = false
is_some (some a) = true

-- `s.starts_with("0x")`
unfoldable pub starts_with_0x : String → Bool
unfolding strip_0x is_some
starts_with_0x s = is_some (strip_0x s)

-- `find_map` goes on where the result of the first is `None`.
unfoldable pub or_next : Option String → Option String → Option String
or_next none next = next
or_next (some s) next = some s

unfoldable mutual
  pub first_address : Json → Option String
  first_address (Json.string s) = if starts_with_0x s then some s else none
  first_address (Json.array items) = first_address_of_items items
  first_address (Json.object ms) = first_address_of_members ms
  first_address _ = none

  first_address_of_items : Elements → Option String
  first_address_of_items Elements.nil = none
  first_address_of_items (Elements.cons j js) =
      or_next (first_address j) (first_address_of_items js)

  first_address_of_members : Members → Option String
  first_address_of_members Members.end = none
  first_address_of_members (Members.member k v ms) =
      or_next (first_address v) (first_address_of_members ms)

unfoldable mutual
  pub first_string : Json → Option String
  first_string (Json.string s) = some s
  first_string (Json.array items) = first_string_of_items items
  first_string (Json.object ms) = first_string_of_members ms
  first_string _ = none

  first_string_of_items : Elements → Option String
  first_string_of_items Elements.nil = none
  first_string_of_items (Elements.cons j js) = or_next (first_string j) (first_string_of_items js)

  first_string_of_members : Members → Option String
  first_string_of_members Members.end = none
  first_string_of_members (Members.member k v ms) =
      or_next (first_string v) (first_string_of_members ms)

unfoldable pub unwrap_or : String → Option String → String
unwrap_or other none = other
unwrap_or other (some s) = s

module _ (hex_decode : String → Option (List ℕ)) (blake2b_512 : List ℕ → List ℕ)
    (to_base58 : List ℕ → String) where
  unfoldable pub ss58_from_hex_account : String → ℕ → Option String
  ss58_from_hex_account s prefix = bind (strip_0x s) λ hex.
      bind (hex_decode hex) λ bytes.
        if length bytes == 32 then some (encode blake2b_512 to_base58 bytes prefix) else none

  unfoldable pub extract_signer : Option Json → ℕ → Bool × Option String
  extract_signer none prefix = (false, none)
  extract_signer (some origin) prefix = (
    true,
    map (λ s. unwrap_or s (ss58_from_hex_account s prefix))
        (or_next (first_address origin) (first_string origin)),
  )

-- The texts in a JSON value, from left to right, without the keys.
mutual
  pub texts : Json → List String
  texts (Json.string s) = s ∷ []
  texts (Json.array items) = texts_of_items items
  texts (Json.object ms) = texts_of_members ms
  texts _ = []

  texts_of_items : Elements → List String
  texts_of_items Elements.nil = []
  texts_of_items (Elements.cons j js) = texts j ++ texts_of_items js

  texts_of_members : Members → List String
  texts_of_members Members.end = []
  texts_of_members (Members.member k v ms) = texts v ++ texts_of_members ms

abbrev pub find : (String → Bool) → List String → Option String
find f [] = none
find f (s ∷ ss) = if f s then some s else find f ss

find-append :
    (f : String → Bool) (xs ys : List String) → find f (xs ++ ys) ≡ or_next (find f xs) (find f ys)
unfolding or_next
find-append f [] ys = refl
find-append f (x ∷ xs) ys = elim (Bool-cases (f x)) [
  | inl b ↦ rw b refl
  | inr b ↦ rw b (find-append f xs ys)
]

-- Both walks give the first text with their test.
mutual
  unfolding first_address texts

  first_address-find : (j : Json) → first_address j ≡ find starts_with_0x (texts j)
  first_address-find (Json.string s) = refl
  first_address-find (Json.array items) = items-find items
  first_address-find (Json.object ms) = members-find ms
  first_address-find _ = refl

  items-find : (js : Elements) → first_address_of_items js ≡ find starts_with_0x (texts_of_items js)
  items-find Elements.nil = refl
  items-find (Elements.cons j js) =
      rw
        (
          first_address-find j,
          items-find js,
          find-append starts_with_0x (texts j) (texts_of_items js),
        )
        refl

  members-find :
      (ms : Members) → first_address_of_members ms ≡ find starts_with_0x (texts_of_members ms)
  members-find Members.end = refl
  members-find (Members.member k v ms) =
      rw
        (
          first_address-find v,
          members-find ms,
          find-append starts_with_0x (texts v) (texts_of_members ms),
        )
        refl

first-append : (xs ys : List String) → first (xs ++ ys) ≡ or_next (first xs) (first ys)
unfolding or_next
first-append [] ys = refl
first-append (x ∷ xs) ys = refl

mutual
  unfolding first_string texts

  first_string-first : (j : Json) → first_string j ≡ first (texts j)
  first_string-first (Json.string s) = refl
  first_string-first (Json.array items) = items-first items
  first_string-first (Json.object ms) = members-first ms
  first_string-first _ = refl

  items-first : (js : Elements) → first_string_of_items js ≡ first (texts_of_items js)
  items-first Elements.nil = refl
  items-first (Elements.cons j js) =
      rw (first_string-first j, items-first js, first-append (texts j) (texts_of_items js)) refl

  members-first : (ms : Members) → first_string_of_members ms ≡ first (texts_of_members ms)
  members-first Members.end = refl
  members-first (Members.member k v ms) =
      rw (first_string-first v, members-first ms, first-append (texts v) (texts_of_members ms)) refl

module _ (hex_decode : String → Option (List ℕ)) (blake2b_512 : List ℕ → List ℕ)
    (to_base58 : List ℕ → String) where
  -- The text of a signer, in SS58 where it is an account.
  abbrev pub rendered : ℕ → String → String
  rendered prefix s = unwrap_or s (ss58_from_hex_account hex_decode blake2b_512 to_base58 s prefix)
