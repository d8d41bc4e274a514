-- ===== src/Codegen/Parse.antt =====
-- `parse_schema` of crates/subdex-codegen/src/parse.rs. The GraphQL parser is a parameter: it gives a
-- document or the text of an error. The types of a document have what the code reads of them.
pub mod Gives
pub mod Valid
pub mod Accepts
use subdex.Prelude.{
  String, str_eq, Bool, true, false, not, ◌&&◌, ◌||◌, Option, none, some, List, [], ◌∷◌, ◌++◌,
  is_empty, if◌then◌else◌,
}
use subdex.Codegen.Names.{to_snake_case, table_name}
use subdex.Codegen.Model.{FieldType, Field, EnumDef, Entity, Schema, from_graphql, any_enum}

pub data ParseError : Type 0 where
  syntax : String → ParseError
  missing_id : String → ParseError
  nullable_id : String → String → ParseError
  unknown_type list_not_supported : String → String → String → ParseError
  duplicate_entity : String → ParseError
  duplicate_field : String → String → ParseError
  no_entities : ParseError

pub data ParseResult (A : Type 0) : Type 0 where
  ok : A → ParseResult A
  err : ParseError → ParseResult A

module _ {A B : Type 0} where
  infixl 5 ◌>>=◌
  unfoldable pub ◌>>=◌ : ParseResult A → (A → ParseResult B) → ParseResult B
  ParseResult.ok a >>= f = f a
  ParseResult.err e >>= f = ParseResult.err e

-- A list has its element type, and whether the element is nullable.
pub data BaseType : Type 0 where
  named : String → BaseType
  list : BaseType → Bool → BaseType

pub record FieldDefinition : Type 0 where
  pub name : String
  pub base : BaseType
  pub nullable : Bool
  pub directives : List String

pub data TypeKind : Type 0 where
  object : List FieldDefinition → TypeKind
  enum : List String → TypeKind
  other : TypeKind

pub record TypeDefinition : Type 0 where
  pub name : String
  pub directives : List String
  pub kind : TypeKind

pub data Definition : Type 0 where
  type : TypeDefinition → Definition
  other : Definition

abbrev pub Document : Type 0
Document = List Definition

unfoldable pub contains : List String → String → Bool
contains [] name = false
contains (x ∷ xs) name = str_eq x name || contains xs name

abbrev pub has_directive : List String → String → Bool
has_directive directives name = contains directives name

-- The first pass: the names of the entities, and the enums.
abbrev pub Names : Type 0
Names = List String × List EnumDef

unfoldable pub collect_type : TypeDefinition → TypeKind → Names → ParseResult Names
collect_type t (TypeKind.object _) (names, enums) =
    if has_directive t.directives "entity"
    then (if contains names t.name
        then ParseResult.err (ParseError.duplicate_entity t.name)
        else ParseResult.ok (names ++ (t.name ∷ []), enums))
    else ParseResult.ok (names, enums)
collect_type t (TypeKind.enum values) (names, enums) =
    ParseResult.ok (names, enums ++ (record { name = t.name; values = values } ∷ []))
collect_type t TypeKind.other known = ParseResult.ok known

unfoldable pub collect : Document → Names → ParseResult Names
collect [] known = ParseResult.ok known
collect (Definition.type t ∷ ds) known = collect_type t t.kind known >>= collect ds
collect (Definition.other ∷ ds) known = collect ds known

-- The second pass.
module _ (known : Names) (entity : String) where
  unfoldable pub named_type : String → String → ParseResult FieldType
  named_type field type_name = elim (from_graphql type_name) [
    | some s ↦ ParseResult.ok (FieldType.scalar s)
    | none ↦
        if any_enum known.1 type_name
        then ParseResult.ok (FieldType.enum type_name)
        else if contains known.0 type_name
        then ParseResult.ok (FieldType.relation type_name)
        else ParseResult.err (ParseError.unknown_type entity field type_name)
  ]

  unfoldable pub list_type : String → BaseType → ParseResult FieldType
  list_type field (BaseType.named inner_name) = elim (from_graphql inner_name) [
    | some s ↦ ParseResult.ok (FieldType.scalar_list s)
    | none ↦ ParseResult.err (ParseError.list_not_supported entity field inner_name)
  ]
  list_type field (BaseType.list _ _) =
      ParseResult.err (ParseError.list_not_supported entity field "nested list")

  unfoldable pub field_type : String → BaseType → ParseResult FieldType
  field_type field (BaseType.named n) = named_type field n
  field_type field (BaseType.list inner _) = list_type field inner

unfoldable pub any_named : List Field → String → Bool
any_named [] name = false
any_named (f ∷ fs) name = str_eq f.name name || any_named fs name

unfoldable pub any_id : List Field → Bool
any_id [] = false
any_id (f ∷ fs) = f.is_id || any_id fs

module _ (known : Names) (entity : String) where
  -- A field's column, once its type is known.
  unfoldable pub finish_field : FieldDefinition → List Field → FieldType → ParseResult (List Field)
  finish_field f fields ty =
      let is_id = str_eq f.name "id" in
      if is_id && f.nullable
      then ParseResult.err (ParseError.nullable_id entity f.name)
      else ParseResult.ok (
          fields
          ++ (record {
            name = f.name;
            column = to_snake_case f.name;
            ty = ty;
            nullable = f.nullable;
            indexed = has_directive f.directives "index";
            unique = has_directive f.directives "unique";
            is_id = is_id;
          }
              ∷ []))

  -- One round of the loop over an entity's fields.
  unfoldable pub build_field : FieldDefinition → List Field → ParseResult (List Field)
  build_field f fields =
      if any_named fields f.name
      then ParseResult.err (ParseError.duplicate_field entity f.name)
      else if has_directive f.directives "derivedFrom"
      then ParseResult.ok fields
      else field_type known entity f.name f.base >>= finish_field f fields

  unfoldable pub build_fields : List FieldDefinition → List Field → ParseResult (List Field)
  build_fields [] fields = ParseResult.ok fields
  build_fields (f ∷ fs) fields = build_field f fields >>= build_fields fs

module _ (entity : String) where
  unfoldable pub finish_entity : List Entity → List Field → ParseResult (List Entity)
  finish_entity entities fields =
      if not (any_id fields)
      then ParseResult.err (ParseError.missing_id entity)
      else ParseResult.ok
          (entities ++ (record { name = entity; table = table_name entity; fields = fields } ∷ []))

module _ (known : Names) where
  unfoldable pub build_type : TypeDefinition → TypeKind → List Entity → ParseResult (List Entity)
  build_type t (TypeKind.object obj) entities =
      if has_directive t.directives "entity"
      then build_fields known t.name obj [] >>= finish_entity t.name entities
      else ParseResult.ok entities
  build_type t _ entities = ParseResult.ok entities

  unfoldable pub build : Document → List Entity → ParseResult (List Entity)
  build [] entities = ParseResult.ok entities
  build (Definition.type t ∷ ds) entities = build_type t t.kind entities >>= build ds
  build (Definition.other ∷ ds) entities = build ds entities

unfoldable pub build_schema : Document → Names → ParseResult Schema
build_schema doc known =
    if is_empty known.0
    then ParseResult.err ParseError.no_entities
    else (build known doc [] >>= λ entities.
        ParseResult.ok (record { entities = entities; enums = known.1 }))

-- `async_graphql_parser::parse_schema`, and an error's text.
pub data Syntax : Type 0 where
  document : Document → Syntax
  syntax_error : String → Syntax

unfoldable pub parse_schema : (String → Syntax) → String → ParseResult Schema
parse_schema parser source = elim (parser source) [
  | Syntax.syntax_error e ↦ ParseResult.err (ParseError.syntax e)
  | Syntax.document doc ↦ collect doc ([], []) >>= build_schema doc
]
