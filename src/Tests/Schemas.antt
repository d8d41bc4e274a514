-- ===== src/Tests/Schemas.antt =====
-- A schema with two entities and an enum.
use subdex.Prelude.{String, true, false, ◌≡◌, refl, some, [], ◌∷◌}
use subdex.Codegen.Names.{table_name, snake_from, starts_word, next_to}
use subdex.Codegen.Model.{
  Scalar, FieldType, Field, Schema, from_graphql, graphql_name, any_enum, pg_type, scalar_pg_type,
}
use subdex.Codegen.Parse.{
  ParseResult, ◌>>=◌, BaseType, FieldDefinition, TypeKind, Definition, Document, Syntax, contains,
  collect_type, collect, any_id, any_named, named_type, list_type, field_type, finish_field,
  build_field, build_fields, finish_entity, build_type, build, build_schema, parse_schema,
}
use subdex.Codegen.Sql.{
  render_table, join, column_def, constraints, quote_ident, double_quotes, index_lines, index_line,
  read_ident, read_ident-quote_ident,
}
use subdex.Codegen.Parse.Accepts.{SchemaIsValid, parse_schema-SchemaIsValid}
use subdex.Prelude.Chars.{to_ascii_lowercase}

abbrev field : String → BaseType → FieldDefinition
field name base = record { name = name; base = base; nullable = false; directives = [] }

abbrev doc : Document
doc =
    Definition.type (record {
      name = "Swap";
      directives = "entity" ∷ [];
      kind = TypeKind.object (
          field "id" (BaseType.named "ID")
          ∷ field "poolIds" (BaseType.list (BaseType.named "String") false)
          ∷ field "owner" (BaseType.named "User")
          ∷ field "side" (BaseType.named "Side")
          ∷ []);
    })
    ∷ Definition.type (record {
      name = "User";
      directives = "entity" ∷ [];
      kind = TypeKind.object (field "id" (BaseType.named "ID") ∷ []);
    })
    ∷ Definition.type
        (record { name = "Side"; directives = []; kind = TypeKind.enum ("BUY" ∷ "SELL" ∷ []) })
    ∷ []

abbrev column : String → String → FieldType → Field
column name snake ty = record {
  name = name;
  column = snake;
  ty = ty;
  nullable = false;
  indexed = false;
  unique = false;
  is_id = false;
}

abbrev id_column : Field
id_column = record {
  name = "id";
  column = "id";
  ty = FieldType.scalar Scalar.id;
  nullable = false;
  indexed = false;
  unique = false;
  is_id = true;
}

abbrev schema : Schema
schema = record {
  entities =
      record {
        name = "Swap";
        table = "swaps";
        fields =
            id_column
            ∷ column "poolIds" "pool_ids" (FieldType.scalar_list Scalar.string)
            ∷ column "owner" "owner" (FieldType.relation "User")
            ∷ column "side" "side" (FieldType.enum "Side")
            ∷ [];
      }
      ∷ record { name = "User"; table = "users"; fields = id_column ∷ [] }
      ∷ [];
  enums = record { name = "Side"; values = "BUY" ∷ "SELL" ∷ [] } ∷ [];
}

parsed : parse_schema (λ s. Syntax.document doc) "" ≡ ParseResult.ok schema
unfolding parse_schema ◌>>=◌ collect collect_type contains build_schema build build_type
    build_fields build_field finish_field finish_entity field_type named_type list_type any_named
    any_id any_enum from_graphql snake_from starts_word next_to to_ascii_lowercase table_name
parsed = refl

parse_schema-SchemaIsValid_example : SchemaIsValid doc schema
parse_schema-SchemaIsValid_example =
    parse_schema-SchemaIsValid (λ s. Syntax.document doc) "" doc schema refl parsed

json_name : (graphql_name Scalar.json ≡ "JSON") × (from_graphql "JSONObject" ≡ some Scalar.json)
unfolding graphql_name from_graphql
json_name = (refl, refl)

read_ident-quote_ident_example : read_ident (quote_ident "a\"b") ≡ some "a\"b"
read_ident-quote_ident_example = read_ident-quote_ident "a\"b"

user_table :
    render_table (record { name = "User"; table = "users"; fields = id_column ∷ [] })
    ≡ "CREATE TABLE IF NOT EXISTS users (\n    \"id\" TEXT PRIMARY KEY\n);\n"
unfolding render_table join column_def constraints quote_ident double_quotes pg_type scalar_pg_type
    index_lines index_line
user_table = refl
