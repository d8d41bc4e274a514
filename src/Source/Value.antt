-- ===== src/Source/Value.antt =====
-- crates/subdex-source/src/value.rs: the readers of the fields of a decoded value. `Value` has the
-- shapes of `scale_value::Value` that they tell apart, with `other` for a variant or a bit sequence.
-- Integers and bytes are numbers; the hex digits of bytes and the parts of SS58 are parameters.
pub mod Integer
pub mod Bytes
pub mod Lookup
use Prim.Native.Char.{Char}
use mathlib.Core.Option.{map, bind}
use subdex.Prelude.{
  ℕ, zero, suc, ◌+◌, ◌*◌, ◌^◌, String, ◌<>◌, str_eq, Bool, true, false, ◌&&◌, Option, none, some,
  List, [], ◌∷◌, length, leb, ◌==◌, if◌then◌else◌, decimal,
}
use subdex.Source.Ss58.{encode}

-- `negsuc n` is -(n + 1).
pub data ℤ : Type 0 where
  pos negsuc : ℕ → ℤ

-- A 256-bit integer is its bytes, the lowest first.
pub data Primitive : Type 0 where
  bool : Bool → Primitive
  char : Char → Primitive
  string : String → Primitive
  u128 : ℕ → Primitive
  i128 : ℤ → Primitive
  u256 i256 : List ℕ → Primitive

mutual
  pub data Value : Type 0 where
    primitive : Primitive → Value
    unnamed : Items → Value
    named : Fields → Value
    other : Value

  pub data Items : Type 0 where
    nil : Items
    cons : Value → Items → Items

  pub data Fields : Type 0 where
    end : Fields
    entry : String → Value → Fields → Fields

-- `fields.iter().find(|(n, _)| n == name).map(|(_, v)| v)`
unfoldable pub find_field : Fields → String → Option Value
find_field Fields.end name = none
find_field (Fields.entry n v fs) name =
    let rest = find_field fs name in if str_eq n name then some v else rest

unfoldable pub field : Value → String → Option Value
field (Value.named fs) name = find_field fs name
field _ name = none

-- `u128::from_le_bytes`
unfoldable pub from_le_bytes : List ℕ → ℕ
from_le_bytes [] = 0
from_le_bytes (b ∷ bs) = b + 2 ^ 8 * from_le_bytes bs

abbrev pub take : ℕ → List ℕ → List ℕ
take zero bs = []
take (suc n) [] = []
take (suc n) (b ∷ bs) = b ∷ take n bs

abbrev pub drop : ℕ → List ℕ → List ℕ
drop zero bs = bs
drop (suc n) [] = []
drop (suc n) (b ∷ bs) = drop n bs

abbrev pub all_zero : List ℕ → Bool
all_zero [] = true
all_zero (b ∷ bs) = (b == 0) && all_zero bs

unfoldable pub as_u128 : Value → Option ℕ
as_u128 (Value.primitive (Primitive.u128 n)) = some n
as_u128 (Value.primitive (Primitive.u256 bytes)) =
    if all_zero (drop 16 bytes) then some (from_le_bytes (take 16 bytes)) else none
as_u128 (Value.primitive (Primitive.i128 (ℤ.pos n))) = some n
as_u128 _ = none

unfoldable pub field_u128 : Value → String → Option ℕ
field_u128 value name = bind (field value name) as_u128

unfoldable pub field_bigint : Value → String → Option String
field_bigint value name = map decimal (field_u128 value name)

unfoldable pub as_bool : Value → Option Bool
as_bool (Value.primitive (Primitive.bool b)) = some b
as_bool _ = none

unfoldable pub field_bool : Value → String → Option Bool
field_bool value name = bind (field value name) as_bool

unfoldable pub as_str : Value → Option String
as_str (Value.primitive (Primitive.string s)) = some s
as_str _ = none

unfoldable pub field_str : Value → String → Option String
field_str value name = bind (field value name) as_str

unfoldable pub is_byte : Value → Bool
is_byte (Value.primitive (Primitive.u128 n)) = leb n 255
is_byte _ = false

unfoldable pub byte_of : Value → Option ℕ
byte_of (Value.primitive (Primitive.u128 n)) = if leb n 255 then some n else none
byte_of _ = none

-- The loop over the items.
unfoldable pub bytes_of : Items → Option (List ℕ)
bytes_of Items.nil = some []
bytes_of (Items.cons v vs) = bind (byte_of v) λ b. map (λ bs. b ∷ bs) (bytes_of vs)

unfoldable pub collect_bytes : Value → Option (List ℕ)
collect_bytes (Value.unnamed (Items.cons v Items.nil)) =
    let inner = collect_bytes v in if is_byte v then bytes_of (Items.cons v Items.nil) else inner
collect_bytes (Value.unnamed items) = bytes_of items
collect_bytes (Value.named (Fields.entry n v Fields.end)) = collect_bytes v
collect_bytes _ = none

module _ (hex_encode : List ℕ → String) where
  unfoldable pub field_hex : Value → String → Option String
  field_hex value name =
      bind (field value name) λ v. map (λ bytes. "0x" <> hex_encode bytes) (collect_bytes v)

module _ (blake2b_512 : List ℕ → List ℕ) (to_base58 : List ℕ → String) where
  unfoldable pub as_account_ss58 : Value → ℕ → Option String
  as_account_ss58 value prefix =
      bind (collect_bytes value) λ bytes.
        if length bytes == 32 then some (encode blake2b_512 to_base58 bytes prefix) else none

  unfoldable pub field_account_ss58 : Value → String → ℕ → Option String
  field_account_ss58 value name prefix = bind (field value name) λ v. as_account_ss58 v prefix

pub data MissingField : Type 0 where
  missing_field : String → MissingField

abbrev pub display : MissingField → String
display (missing_field name) = "missing required field `" <> (name <> "`")

-- `Ok(())`, or the error.
pub data Required : Type 0 where
  ok : Required
  err : MissingField → Required

unfoldable pub require_fields : Value → List String → Required
require_fields value [] = Required.ok
require_fields value (name ∷ names) =
    let rest = require_fields value names in
    elim (field value name) [ none ↦ Required.err (missing_field name) | some v ↦ rest ]
