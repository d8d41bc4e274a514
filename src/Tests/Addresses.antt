-- ===== src/Tests/Addresses.antt =====
-- SS58 prefixes and `MultiAddress` bytes.
use subdex.Prelude.{ℕ, ◌≡◌, refl, some, List, [], ◌∷◌}
use subdex.Source.Ss58.{tagged_account, account_from_address_bytes}

abbrev eight : List ℕ → List ℕ
eight bs = 7 ∷ 7 ∷ 7 ∷ 7 ∷ 7 ∷ 7 ∷ 7 ∷ 7 ∷ bs

abbrev account : List ℕ
account = eight (eight (eight (eight [])))

id_address : account_from_address_bytes (0 ∷ account) ≡ some account
unfolding account_from_address_bytes tagged_account
id_address = refl
