-- ===== src/Source/Ss58.antt =====
-- crates/subdex-source/src/ss58.rs. Bytes are numbers; the hash blake2b_512 and the base58 text of
-- bytes are parameters.
use mathlib.Core.Option.{some-injective}
use subdex.Prelude.{
  ℕ, ◌+◌, ◌*◌, ◌-◌, ◌/◌, ◌%◌, ◌^◌, ◌<◌, String, true, ◌&&◌, ◌||◌, Option, none, some, List, [], ◌∷◌,
  ◌++◌, length, leb, ◌==◌, if◌then◌else◌, ◌≡◌, refl, arith, Bool-cases, inl, inr, ◌⊎◌, sym, ap, ◌∙◌,
  ==_iff,
}

-- In the 2-byte form `|` joins bits that do not overlap, and is a sum.
unfoldable pub prefix_bytes : ℕ → List ℕ
prefix_bytes prefix =
    if leb prefix 63
    then prefix ∷ []
    else (let ident = prefix % 2 ^ 14 in (64 + ident / 2 ^ 8 % 2 ^ 8) ∷ ident % 2 ^ 8 ∷ [])

-- `checksum[..2]`
abbrev first_two : List ℕ → List ℕ
first_two [] = []
first_two (a ∷ []) = a ∷ []
first_two (a ∷ b ∷ bs) = a ∷ b ∷ []

-- `b"SS58PRE"`
abbrev tag : List ℕ
tag = 83 ∷ 83 ∷ 53 ∷ 56 ∷ 80 ∷ 82 ∷ 69 ∷ []

module _ (blake2b_512 : List ℕ → List ℕ) (to_base58 : List ℕ → String) where
  unfoldable pub ss58_checksum : List ℕ → List ℕ
  ss58_checksum payload = blake2b_512 (tag ++ payload)

  unfoldable pub encode : List ℕ → ℕ → String
  unfolding prefix_bytes ss58_checksum
  encode account prefix =
      let payload = prefix_bytes prefix ++ account in
      to_base58 (payload ++ first_two (ss58_checksum payload))

-- The payload of a `MultiAddress` after its tag, where the tag is `Id` or `Address32`.
unfoldable pub tagged_account : List ℕ → Option (List ℕ)
tagged_account [] = none
tagged_account (t ∷ account) =
    if (t == 0 || t == 3) && (length (t ∷ account) == 33) then some account else none

unfoldable pub account_from_address_bytes : List ℕ → Option (List ℕ)
unfolding tagged_account
account_from_address_bytes bytes = if length bytes == 32 then some bytes else tagged_account bytes

-- The prefix that the bytes at the start of a payload stand for, in this form.
abbrev pub read_prefix : List ℕ → ℕ
read_prefix [] = 0
read_prefix (a ∷ []) = a
read_prefix (a ∷ b ∷ bs) = (a - 64) * 256 + b

-- The bytes of a prefix of 14 bits determine it.
read_prefix-prefix_bytes :
    (prefix : ℕ) → prefix < 2 ^ 14 → read_prefix (prefix_bytes prefix) ≡ prefix
unfolding prefix_bytes
read_prefix-prefix_bytes prefix lt = elim (Bool-cases (leb prefix 63)) [
  | inl b ↦ rw b refl
  | inr b ↦ rw b (omega arith)
]

is_tag : (t : ℕ) → ((t == 0) || (t == 3)) ≡ true → (t ≡ 0) ⊎ (t ≡ 3)
is_tag t h = elim (Bool-cases (t == 0)) [ inl b ↦ inl (ground arith) | inr b ↦ inr (ground arith) ]

tagged_account-shape :
    (bytes account : List ℕ)
    → tagged_account bytes ≡ some account
    → (length account ≡ 32) × ((t : ℕ) × ((t ≡ 0) ⊎ (t ≡ 3)) × (bytes ≡ t ∷ account))
unfolding tagged_account
tagged_account-shape [] account e = absurd cc
tagged_account-shape (t ∷ rest) account e =
    elim (Bool-cases ((t == 0 || t == 3) && (length (t ∷ rest) == 33))) [
      | inr b ↦ absurd (cc (rw b at e))
      | inl b ↦
          let same : rest ≡ account = some-injective _ _ (rw b at e) in
          let tagged : ((t == 0) || (t == 3)) ≡ true = ground arith in
          let long : length rest ≡ 32 = ground arith in
          (sym (ap length same) ∙ long, (t, is_tag t tagged, ap (λ x. t ∷ x) same))
    ]

-- An account that is found has 32 bytes, and the address is the account, or it after the tag of `Id`
-- or `Address32`.
account_from_address_bytes-shape :
    (bytes account : List ℕ)
    → account_from_address_bytes bytes ≡ some account
    → (length account ≡ 32)
      × ((bytes ≡ account) ⊎ ((t : ℕ) × ((t ≡ 0) ⊎ (t ≡ 3)) × (bytes ≡ t ∷ account)))
unfolding account_from_address_bytes
account_from_address_bytes-shape bytes account e = elim (Bool-cases (length bytes == 32)) [
  | inl b ↦
      let same : bytes ≡ account = some-injective _ _ (rw b at e) in
      (sym (ap length same) ∙ (==_iff (length bytes) 32).0 b, inl same)
  | inr b ↦ let h = tagged_account-shape bytes account (rw b at e) in (h.0, inr h.1)
]
