-- ===== src/Tests/Values.antt =====
-- A transfer's fields: an amount of 256 bits, an account in a newtype, and the portal's JSON of them.
use mathlib.Core.Option.{bind}
use subdex.Prelude.{ℕ, String, Option, none, some, List, [], ◌∷◌, ◌≡◌, ◌↔◌, refl, arith}
use subdex.Source.Value.{
  Primitive, Value, Items, Fields, missing_field, Required, find_field, field, from_le_bytes,
  as_u128, collect_bytes, require_fields,
}
use subdex.Source.Value.Integer.{integer_of, fit_u128, as_u128-fit_u128}
use subdex.Source.Value.Bytes.{Holds, collect_bytes_iff}
use subdex.Source.Sqd.Json.{Json, Elements, Members}

abbrev four : List ℕ → List ℕ
four bs = 0 ∷ 0 ∷ 0 ∷ 0 ∷ bs

-- 258, the lowest byte first.
abbrev amount_bytes : List ℕ
amount_bytes = 2 ∷ 1 ∷ 0 ∷ 0 ∷ four (four (four (four (four (four (four []))))))

abbrev amount : Value
amount = Value.primitive (Primitive.u256 amount_bytes)

reads_amount : as_u128 amount ≡ some 258
unfolding as_u128 from_le_bytes
reads_amount = refl

as_u128-fit_u128_example : as_u128 amount ≡ bind (integer_of amount) fit_u128
as_u128-fit_u128_example = as_u128-fit_u128 amount (refl, ground arith)

abbrev account : Value
account = Value.unnamed (
    Items.cons
      (Value.unnamed (
        Items.cons (Value.primitive (Primitive.u128 7))
          (Items.cons (Value.primitive (Primitive.u128 255)) Items.nil)))
      Items.nil)

collect_bytes_iff_example :
    (collect_bytes account ≡ some (7 ∷ 255 ∷ [])) ↔ Holds account (7 ∷ 255 ∷ [])
collect_bytes_iff_example = collect_bytes_iff account (7 ∷ 255 ∷ [])

abbrev fields : Value
fields = Value.named (Fields.entry "who" account (Fields.entry "amount" amount Fields.end))

misses :
    require_fields fields ("who" ∷ "asset_id" ∷ "to" ∷ []) ≡ Required.err (missing_field "asset_id")
unfolding require_fields field find_field
misses = refl

abbrev origin : Json
origin = Json.object (
    Members.member "__kind" (Json.string "Signed") (
      Members.member "value" (Json.array (Elements.cons (Json.string "0xab") Elements.nil))
        Members.end))

abbrev no_hex : String → Option (List ℕ)
no_hex s = none

abbrev no_hash : List ℕ → List ℕ
no_hash bs = bs

abbrev no_text : List ℕ → String
no_text bs = ""
