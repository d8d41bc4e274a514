-- ===== src/Source/Sqd/Json.antt =====
-- `serde_json::Value`, and `json_to_value` of crates/subdex-source/src/sqd/mapping.rs. A number is what
-- its accessors read; an object is its members in order, with different keys.
use mathlib.Core.Option.{map}
use subdex.Prelude.{ℕ, String, str_eq, Bool, Option, none, some, if◌then◌else◌}
use subdex.Source.Value.{ℤ, Primitive, Value, Items, Fields}

-- `truncated` is `as_f64().unwrap_or(0.0) as u128`.
pub record Number : Type 0 where
  pub as_u64 : Option ℕ
  pub as_i64 : Option ℤ
  pub truncated : ℕ

mutual
  pub data Json : Type 0 where
    null : Json
    bool : Bool → Json
    number : Number → Json
    string : String → Json
    array : Elements → Json
    object : Members → Json

  pub data Elements : Type 0 where
    nil : Elements
    cons : Json → Elements → Elements

  pub data Members : Type 0 where
    end : Members
    member : String → Json → Members → Members

unfoldable pub value_of_i64 : Option ℤ → ℕ → Value
value_of_i64 (some i) truncated = Value.primitive (Primitive.i128 i)
value_of_i64 none truncated = Value.primitive (Primitive.u128 truncated)

unfoldable pub value_of_number : Option ℕ → Number → Value
value_of_number (some u) n = Value.primitive (Primitive.u128 u)
value_of_number none n = value_of_i64 n.as_i64 n.truncated

unfoldable mutual
  pub json_to_value : Json → Value
  json_to_value Json.null = Value.unnamed Items.nil
  json_to_value (Json.bool b) = Value.primitive (Primitive.bool b)
  json_to_value (Json.number n) = value_of_number n.as_u64 n
  json_to_value (Json.string s) = Value.primitive (Primitive.string s)
  json_to_value (Json.array items) = Value.unnamed (items_of_elements items)
  json_to_value (Json.object map) = Value.named (fields_of_members map)

  items_of_elements : Elements → Items
  items_of_elements Elements.nil = Items.nil
  items_of_elements (Elements.cons j js) = Items.cons (json_to_value j) (items_of_elements js)

  fields_of_members : Members → Fields
  fields_of_members Members.end = Fields.end
  fields_of_members (Members.member k v ms) =
      Fields.entry k (json_to_value v) (fields_of_members ms)

abbrev pub get_member : Members → String → Option Json
get_member Members.end name = none
get_member (Members.member k v ms) name = if str_eq k name then some v else get_member ms name

-- `json.get(name)`, which is `None` but for an object.
abbrev pub get : Json → String → Option Json
get (Json.object ms) name = get_member ms name
get _ name = none
