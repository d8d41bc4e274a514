-- ===== src/Source/Subxt/Parts.antt =====
-- What crates/subdex-source/src/mapping.rs reads of the parts of a block: the outcomes of extrinsics in the
-- events, and the timestamp in the extrinsics.
use subdex.Prelude.{
  ℕ, ◌%◌, ◌^◌, String, str_eq, Bool, true, false, ◌&&◌, Option, none, some, List, [], ◌∷◌, ◌==◌,
  if◌then◌else◌, Attempt,
}
use subdex.Core.Types.{Extrinsic}
use subdex.Source.Value.{Primitive, Value, Items, Fields}

pub data Phase : Type 0 where
  apply_extrinsic : ℕ → Phase
  finalization initialization : Phase

-- An event and an extrinsic as subxt shows them, with the outcome of decoding the fields.
pub record RawEvent : Type 0 where
  pub phase : Phase
  pub pallet : String
  pub name : String
  pub fields : Attempt Value

pub record RawExtrinsic : Type 0 where
  pub index : ℕ
  pub pallet : String
  pub call : String
  pub args : Attempt Value
  pub signed : Bool
  pub address_bytes : Option (List ℕ)

-- The `HashMap` of outcomes, the last insertion first.
abbrev pub Success : Type 0
Success = List (ℕ × Bool)

abbrev pub get : Success → ℕ → Option Bool
get [] i = none
get ((j, b) ∷ m) i = if j == i then some b else get m i

unfoldable pub outcome_of : Phase → String → Success → Success
outcome_of (Phase.apply_extrinsic idx) name m =
    if str_eq name "ExtrinsicSuccess"
    then (idx, true) ∷ m
    else if str_eq name "ExtrinsicFailed"
    then (idx, false) ∷ m
    else m
outcome_of _ name m = m

unfoldable pub note_outcome : RawEvent → Success → Success
note_outcome ev m = if str_eq ev.pallet "System" then outcome_of ev.phase ev.name m else m

unfoldable pub extrinsic_index_of : Phase → Option ℕ
extrinsic_index_of (Phase.apply_extrinsic n) = some n
extrinsic_index_of _ = none

-- `*success.get(&index).unwrap_or(&true)`
unfoldable pub or_true : Option Bool → Bool
or_true none = true
or_true (some b) = b

-- `find_map` over the parts.
unfoldable pub or_next : Option ℕ → Option ℕ → Option ℕ
or_next none next = next
or_next (some n) next = some n

unfoldable mutual
  pub value_first_u64 : Value → Option ℕ
  value_first_u64 (Value.primitive (Primitive.u128 n)) = some (n % 2 ^ 64)
  value_first_u64 (Value.named fs) = first_u64_of_fields fs
  value_first_u64 (Value.unnamed items) = first_u64_of_items items
  value_first_u64 _ = none

  first_u64_of_items : Items → Option ℕ
  first_u64_of_items Items.nil = none
  first_u64_of_items (Items.cons v vs) = or_next (value_first_u64 v) (first_u64_of_items vs)

  first_u64_of_fields : Fields → Option ℕ
  first_u64_of_fields Fields.end = none
  first_u64_of_fields (Fields.entry n v fs) = or_next (value_first_u64 v) (first_u64_of_fields fs)

abbrev is_timestamp_set : Extrinsic Value → Bool
is_timestamp_set e = str_eq e.pallet "Timestamp" && str_eq e.call "set"

-- Of the first such extrinsic, also where it has no integer.
unfoldable pub extract_timestamp : List (Extrinsic Value) → Option ℕ
extract_timestamp [] = none
extract_timestamp (e ∷ es) =
    let rest = extract_timestamp es in if is_timestamp_set e then value_first_u64 e.args else rest
