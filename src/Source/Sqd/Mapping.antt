-- ===== src/Source/Sqd/Mapping.antt =====
-- The portal's blocks and `map_block` of crates/subdex-source/src/sqd/mapping.rs. A missing key that has
-- a default is filled by the parser; `as u32` is written out.
use Prim.Native.Char.{code}
use Prim.Native.String.{[] as empty, ◌∷◌ as ◌∷ˢ◌}
use mathlib.Core.Option.{map as map_option}
use subdex.Prelude.{
  ℕ, suc, ◌%◌, ◌^◌, String, Bool, true, Option, none, some, List, [], ◌∷◌, ◌==◌, if◌then◌else◌,
}
use subdex.Core.Types.{Block, Extrinsic, Event}
use subdex.Source.Value.{Value}
use subdex.Source.Sqd.Json.{Json, json_to_value}
use subdex.Source.Sqd.Signer.{extract_signer}

pub record PortalHeader : Type 0 where
  pub number : ℕ
  pub hash : String
  pub parent_hash : String
  pub spec_version : ℕ
  pub timestamp : Option ℕ

pub record PortalEvent : Type 0 where
  pub extrinsic_index : Option ℕ
  pub name : String
  pub args : Json

pub record PortalCall : Type 0 where
  pub extrinsic_index : Option ℕ
  pub name : String
  pub success : Bool
  pub args : Json
  pub origin : Option Json

pub record PortalBlock : Type 0 where
  pub header : PortalHeader
  pub events : List PortalEvent
  pub calls : List PortalCall

-- `name.split_once('.')`
unfoldable pub split_once_dot : String → Option (String × String)
split_once_dot empty = none
split_once_dot (c ∷ˢ s) =
    let rest = split_once_dot s in
    if code c == 46 then some (empty, s) else map_option (λ x. (c ∷ˢ x.0, x.1)) rest

unfoldable pub split_qualified : String → String × String
split_qualified name = elim (split_once_dot name) [ none ↦ (empty, name) | some x ↦ x ]

-- `iter.enumerate().map(f)`, with the index of the first.
unfoldable pub map_enumerated : {A B : Type 0} → (ℕ → A → B) → ℕ → List A → List B
map_enumerated f i [] = []
map_enumerated f i (x ∷ xs) = f i x ∷ map_enumerated f (suc i) xs

abbrev pub as_u32 : ℕ → ℕ
as_u32 i = i % 2 ^ 32

abbrev pub map_event : ℕ → PortalEvent → Event Value
map_event i e = record {
  index = as_u32 i;
  pallet = (split_qualified e.name).0;
  name = (split_qualified e.name).1;
  fields = json_to_value e.args;
  extrinsic_index = e.extrinsic_index;
}

-- `c.extrinsic_index.unwrap_or(i as u32)`
unfoldable pub index_or : Option ℕ → ℕ → ℕ
index_or none i = as_u32 i
index_or (some n) i = n

module _ (hex_decode : String → Option (List ℕ)) (blake2b_512 : List ℕ → List ℕ)
    (to_base58 : List ℕ → String) where
  abbrev pub map_call : ℕ → ℕ → PortalCall → Extrinsic Value
  map_call prefix i c =
      let signer = extract_signer hex_decode blake2b_512 to_base58 c.origin prefix in
      record {
        index = index_or c.extrinsic_index i;
        pallet = (split_qualified c.name).0;
        call = (split_qualified c.name).1;
        args = json_to_value c.args;
        signed = signer.0;
        signer = signer.1;
        success = c.success;
      }

  abbrev pub map_block : PortalBlock → ℕ → Block Value
  map_block pb ss58_prefix = record {
    id = record { number = pb.header.number; hash = pb.header.hash };
    parent_hash = pb.header.parent_hash;
    timestamp = pb.header.timestamp;
    spec_version = pb.header.spec_version;
    finalized = true;
    extrinsics = map_enumerated (map_call ss58_prefix) 0 pb.calls;
    events = map_enumerated map_event 0 pb.events;
  }
