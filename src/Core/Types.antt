-- ===== src/Core/Types.antt =====
-- crates/subdex-core/src/types.rs. `Value` is `scale_value::Value`, a third-party type, and a
-- parameter. Heights are `u32`, and timestamps `u64`.
use subdex.Prelude.{ℕ, ◌≤◌, u32_max, String, Bool, Option, List, is_empty as is_empty_slice}
use subdex.Prelude.{first as first_of_slice, last as last_of_slice}

pub record BlockId : Type 0 where
  pub number : ℕ
  pub hash : String

module _ (Value : Type 0) where
  pub record Extrinsic : Type 0 where
    pub index : ℕ
    pub pallet : String
    pub call : String
    pub args : Value
    pub signed : Bool
    pub signer : Option String
    pub success : Bool

  pub record Event : Type 0 where
    pub index : ℕ
    pub pallet : String
    pub name : String
    pub fields : Value
    pub extrinsic_index : Option ℕ

  pub record Block : Type 0 where
    pub id : BlockId
    pub parent_hash : String
    pub timestamp : Option ℕ
    pub spec_version : ℕ
    pub finalized : Bool
    pub extrinsics : List Extrinsic
    pub events : List Event

  pub record BlockBatch : Type 0 where
    pub blocks : List Block

-- A height is a `u32`.
abbrev pub Fits : {Value : Type 0} → Block Value → Type 0
Fits b = b.id.number ≤ u32_max

module _ {Value : Type 0} (b : BlockBatch Value) where
  abbrev pub is_empty : Bool
  is_empty = is_empty_slice b.blocks

  abbrev pub first : Option (Block Value)
  first = first_of_slice b.blocks

  abbrev pub last : Option (Block Value)
  last = last_of_slice b.blocks
