-- ===== src/Codegen/Cli/Messages.antt =====
-- What crates/subdex-codegen/src/main.rs prints, and the texts of the errors that it prints.
use Prim.Native.String.{count}
use subdex.Prelude.{
  ℕ, zero, suc, ◌-◌, String, ◌<>◌, not, ◌&&◌, List, [], ◌∷◌, ◌++◌, length, is_empty, map, ◌==◌,
  if◌then◌else◌, decimal,
}
use subdex.Codegen.Text.{concat}
use subdex.Codegen.Sql.{join}
use subdex.Codegen.Model.{Field, Entity, EnumDef, Schema, pg_type, rust_type}
use subdex.Codegen.Parse.{ParseError}
use subdex.Codegen.Files.{SchemaDirError}

abbrev pub usage_text : String
usage_text = concat (
    "subdex-codegen — schema-first codegen for subdex\n" ∷ "\n" ∷ "USAGE:\n"
    ∷ "    subdex-codegen check <schema.graphql | schema-dir>\n"
    ∷ "        Parse and validate a schema, printing the tables, columns and indexes\n"
    ∷ "        that will be generated. Does not write anything.\n" ∷ "\n"
    ∷ "    subdex-codegen generate <schema.graphql | schema-dir> [--out <dir>]\n"
    ∷ "        Generate `entities.rs` (Rust structs + typed upserts), a\n"
    ∷ "        `migrations/NNNN_schema.sql` migration, and `graphql.rs` (async-graphql\n"
    ∷ "        read models + resolvers) into <dir> (default: ./generated). Files carry a\n"
    ∷ "        DO-NOT-EDIT header — edit the schema and re-run, don't hand-edit output.\n" ∷ "\n"
    ∷ "    subdex-codegen new <name> [--out <dir>]\n"
    ∷ "        Scaffold a runnable starter indexer project into <dir> (default: ./<name>):\n"
    ∷ "        a wired main.rs, a stub handler, schema.graphql, .env.example, and a\n"
    ∷ "        docker-compose.yml for Postgres. `cd <name> && docker compose up -d` then\n"
    ∷ "        `WS_URL=… cargo run`.\n" ∷ "\n"
    ∷ "See docs/rfcs/034-schema-first-codegen.md for the full pipeline." ∷ [])

unfoldable pub parse_error_text : ParseError → String
parse_error_text (ParseError.syntax e) = concat ("GraphQL syntax error: " ∷ e ∷ [])
parse_error_text (ParseError.missing_id entity) = concat (
    "entity `" ∷ entity ∷ "` has no `id: ID!` field (every @entity needs one as its primary key)"
    ∷ [])
parse_error_text (ParseError.nullable_id entity field) =
    concat ("entity `" ∷ entity ∷ "` field `" ∷ field ∷ "`: `id` must be `ID!` (non-null)" ∷ [])
parse_error_text (ParseError.unknown_type entity field ty) = concat (
    "entity `" ∷ entity ∷ "` field `" ∷ field ∷ "`: unknown type `" ∷ ty
    ∷ "` — expected a scalar (ID, String, Int, BigInt, Float, Boolean, DateTime, Bytes, JSON), an enum, or another @entity declared in this schema"
    ∷ [])
parse_error_text (ParseError.list_not_supported entity field inner) = concat (
    "entity `" ∷ entity ∷ "` field `" ∷ field ∷ "`: a list of `" ∷ inner
    ∷ "` isn't storable as a column — lists of **scalars** are supported (stored as a Postgres array), but a list of entities is a relation: put the foreign key on the other entity and mark this field `@derivedFrom(field: \"…\")`"
    ∷ [])
parse_error_text (ParseError.duplicate_entity name) =
    concat ("duplicate entity `" ∷ name ∷ "` (declared more than once)" ∷ [])
parse_error_text (ParseError.duplicate_field entity field) =
    concat ("entity `" ∷ entity ∷ "` has duplicate field `" ∷ field ∷ "`" ∷ [])
parse_error_text ParseError.no_entities =
    "no `@entity` types found — mark at least one type with `@entity`"

unfoldable pub dir_error_text : SchemaDirError → String
dir_error_text (SchemaDirError.read path reason) = concat ("reading `" ∷ path ∷ "`: " ∷ reason ∷ [])
dir_error_text (SchemaDirError.empty_dir path) =
    concat ("no *.graphql files found in `" ∷ path ∷ "`" ∷ [])
dir_error_text (SchemaDirError.parse e) = parse_error_text e

unfoldable pub scaffolded_text : String → String → String
scaffolded_text name out = concat (
    "✓ scaffolded `" ∷ name ∷ "` into " ∷ out ∷ "\n\n  cd " ∷ out
    ∷ "\n  docker compose up -d\n  WS_URL=wss://rpc.polkadot.io cargo run" ∷ [])

unfoldable pub entities_text : ℕ → String
entities_text n = concat (decimal n ∷ " entit" ∷ (if n == 1 then "y" else "ies") ∷ [])

unfoldable pub generated_text : ℕ → String → String → String → String → String
generated_text n out entities_path migration_path graphql_path = concat (
    "✓ generated "
    ∷ entities_text n
    ∷ " into "
    ∷ out
    ∷ ":\n    "
    ∷ entities_path
    ∷ "\n    "
    ∷ migration_path
    ∷ "\n    "
    ∷ graphql_path
    ∷ [])

unfoldable pub spaces : ℕ → String
spaces zero = ""
spaces (suc n) = " " <> spaces n

-- `{:<width}`
unfoldable pub pad : ℕ → String → String
pad width text = text <> spaces (width - count text)

unfoldable pub notes : Field → List String
notes f =
    (if f.is_id then "PRIMARY KEY" ∷ [] else [])
    ++ ((if f.unique then "UNIQUE" ∷ [] else [])
        ++ ((if f.indexed then "INDEX" ∷ [] else [])
            ++ (if not f.nullable && not f.is_id then "NOT NULL" ∷ [] else [])))

unfoldable pub suffix : List String → String
suffix ns = if is_empty ns then "" else concat ("  [" ∷ join ", " ns ∷ "]" ∷ [])

unfoldable pub field_row : Field → String
field_row f = concat (
    "    "
    ∷ pad 24 f.column
    ∷ " "
    ∷ pad 20 (pg_type f.ty)
    ∷ " "
    ∷ rust_type f
    ∷ suffix (notes f)
    ∷ [])

unfoldable pub entity_rows : List Entity → List String
entity_rows [] = []
entity_rows (e ∷ es) =
    concat ("\n  " ∷ e.name ∷ " → table `" ∷ e.table ∷ "`" ∷ [])
    ∷ (map field_row e.fields ++ entity_rows es)

unfoldable pub enum_rows : List EnumDef → List String
enum_rows enums =
    if is_empty enums
    then []
    else "\n  enums (stored as TEXT):"
      ∷ map (λ en. concat ("    " ∷ en.name ∷ " = " ∷ join " | " en.values ∷ [])) enums

-- The lines that `check` prints of a schema.
unfoldable pub check_lines : String → Schema → List String
check_lines path schema =
    concat (
      "✓ "
      ∷ path
      ∷ " — "
      ∷ entities_text (length schema.entities)
      ∷ ", "
      ∷ decimal (length schema.enums)
      ∷ " enum"
      ∷ (if length schema.enums == 1 then "" else "s")
      ∷ [])
    ∷ (entity_rows schema.entities ++ enum_rows schema.enums)
