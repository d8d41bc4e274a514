-- ===== src/Codegen/Model.antt =====
-- crates/subdex-codegen/src/model.rs: scalars, fields, entities and schemas.
use subdex.Prelude.{
  String, ◌<>◌, str_eq, Bool, false, ◌||◌, Option, none, some, List, [], ◌∷◌, if◌then◌else◌,
}

pub data Scalar : Type 0 where
  id string int big_int float boolean date_time bytes json : Scalar

unfoldable pub from_graphql : String → Option Scalar
from_graphql name =
    if str_eq name "ID"
    then some Scalar.id
    else if str_eq name "String"
    then some Scalar.string
    else if str_eq name "Int"
    then some Scalar.int
    else if str_eq name "BigInt"
    then some Scalar.big_int
    else if str_eq name "Float"
    then some Scalar.float
    else if str_eq name "Boolean"
    then some Scalar.boolean
    else if str_eq name "DateTime"
    then some Scalar.date_time
    else if str_eq name "Bytes"
    then some Scalar.bytes
    else if str_eq name "JSON" || str_eq name "JSONObject"
    then some Scalar.json
    else none

unfoldable pub graphql_name : Scalar → String
graphql_name Scalar.id = "ID"
graphql_name Scalar.string = "String"
graphql_name Scalar.int = "Int"
graphql_name Scalar.big_int = "BigInt"
graphql_name Scalar.float = "Float"
graphql_name Scalar.boolean = "Boolean"
graphql_name Scalar.date_time = "DateTime"
graphql_name Scalar.bytes = "Bytes"
graphql_name Scalar.json = "JSON"

unfoldable pub scalar_rust_type : Scalar → String
scalar_rust_type Scalar.id = "String"
scalar_rust_type Scalar.string = "String"
scalar_rust_type Scalar.big_int = "String"
scalar_rust_type Scalar.bytes = "String"
scalar_rust_type Scalar.int = "i32"
scalar_rust_type Scalar.float = "f64"
scalar_rust_type Scalar.boolean = "bool"
scalar_rust_type Scalar.date_time = "i64"
scalar_rust_type Scalar.json = "serde_json::Value"

unfoldable pub scalar_pg_type : Scalar → String
scalar_pg_type Scalar.id = "TEXT"
scalar_pg_type Scalar.string = "TEXT"
scalar_pg_type Scalar.bytes = "TEXT"
scalar_pg_type Scalar.int = "INTEGER"
scalar_pg_type Scalar.big_int = "NUMERIC"
scalar_pg_type Scalar.float = "DOUBLE PRECISION"
scalar_pg_type Scalar.boolean = "BOOLEAN"
scalar_pg_type Scalar.date_time = "BIGINT"
scalar_pg_type Scalar.json = "JSONB"

pub data FieldType : Type 0 where
  scalar scalar_list : Scalar → FieldType
  enum relation : String → FieldType

pub record Field : Type 0 where
  pub name : String
  pub column : String
  pub ty : FieldType
  pub nullable : Bool
  pub indexed : Bool
  pub unique : Bool
  pub is_id : Bool

-- The Rust type of a field that is not nullable.
unfoldable pub base_type : FieldType → String
unfolding scalar_rust_type
base_type (FieldType.scalar s) = scalar_rust_type s
base_type (FieldType.scalar_list s) = "Vec<" <> (scalar_rust_type s <> ">")
base_type (FieldType.enum _) = "String"
base_type (FieldType.relation _) = "String"

unfoldable pub rust_type : Field → String
unfolding base_type
rust_type f = let base = base_type f.ty in if f.nullable then "Option<" <> (base <> ">") else base

unfoldable pub pg_type : FieldType → String
unfolding scalar_pg_type
pg_type (FieldType.scalar s) = scalar_pg_type s
pg_type (FieldType.scalar_list s) = scalar_pg_type s <> "[]"
pg_type (FieldType.enum _) = "TEXT"
pg_type (FieldType.relation _) = "TEXT"

pub record EnumDef : Type 0 where
  pub name : String
  pub values : List String

pub record Entity : Type 0 where
  pub name : String
  pub table : String
  pub fields : List Field

-- `fields.iter().find(|f| f.is_id)`
unfoldable pub find_id : List Field → Option Field
find_id [] = none
find_id (f ∷ fs) = let rest = find_id fs in if f.is_id then some f else rest

abbrev pub id_field : Entity → Option Field
id_field e = find_id e.fields

pub record Schema : Type 0 where
  pub entities : List Entity
  pub enums : List EnumDef

unfoldable pub find_entity : String → List Entity → Option Entity
find_entity name [] = none
find_entity name (e ∷ es) =
    let rest = find_entity name es in if str_eq e.name name then some e else rest

abbrev pub entity : Schema → String → Option Entity
entity s name = find_entity name s.entities

unfoldable pub any_enum : List EnumDef → String → Bool
any_enum [] name = false
any_enum (e ∷ es) name = str_eq e.name name || any_enum es name

abbrev pub has_enum : Schema → String → Bool
has_enum s name = any_enum s.enums name
